-- ===== src/Distribute/Delivery.antt =====
-- What the loop of internal/distribute/distribute.go does with its targets.
use syscert.Base.{◌≡◌, refl, ◌↔◌, List, [], ◌∷◌, ◌++◌, append_assoc}
use syscert.Go.Strings.{Str}
use syscert.Config.{DistributeTarget}
use syscert.Os.{Result, ok, err, Error, Sys}
use syscert.Distribute.{one, error_list, attempts, join_errors, run}

-- The targets in order from a state, each with the state before its delivery.
abbrev pub Visits : Str → (DistributeTarget → Sys → Type 0) → List DistributeTarget → Sys → Type 0
Visits d P [] s = Unit
Visits d P (t ∷ ts) s = P t s × Visits d P ts (one d t s).1

join_errors-ok : (es : List Error) → (join_errors es ≡ ok tt) ↔ (es ≡ [])
unfolding join_errors
join_errors-ok [] = (λ _. refl, λ _. refl)
join_errors-ok (e ∷ []) = (λ h. cc, λ h. cc)
join_errors-ok (e ∷ f ∷ es) = (λ h. absurd (never (join_errors (f ∷ es)) h), λ h. cc)
  where
    never :
        (r : Result (Unit {0}))
        → ◌≡◌ {A = Result (Unit {0})}
            (elim r [ ok u ↦ err e | err d ↦ err (Error.joined e d) ])
            (ok tt)
        → ⊥
    never (ok u) h = cc
    never (err d) h = cc

attempts-nil_iff :
    (d : Str) (ts : List DistributeTarget) (s : Sys)
    → ((attempts d ts s).0 ≡ []) ↔ Visits d (λ t u. (one d t u).0 ≡ ok tt) ts s
unfolding attempts
attempts-nil_iff d [] s = (λ _. tt, λ _. refl)
attempts-nil_iff d (t ∷ ts) s =
    headed (one d t s).0 (attempts d ts (one d t s).1).0 (attempts-nil_iff d ts (one d t s).1)
  where
    headed :
        {B : Type 0} (r : Result (Unit {0})) (es : List Error)
        → (es ≡ []) ↔ B
        → (error_list r ++ es ≡ []) ↔ ((r ≡ ok tt) × B)
    headed (ok u) es f = (λ h. (refl, f.0 h), λ h. f.1 h.1)
    headed (err e) es f = (λ h. cc, λ h. cc h.0)

-- A run succeeds exactly if each target's delivery, made from the state that the earlier ones left,
-- succeeds.
pub run-ok_iff :
    (d : Str) (ts : List DistributeTarget) (s : Sys)
    → ((run d ts s).0 ≡ ok tt) ↔ Visits d (λ t u. (one d t u).0 ≡ ok tt) ts s
unfolding run
run-ok_iff d ts s = (
  λ h. (attempts-nil_iff d ts s).0 ((join_errors-ok _).0 h),
  λ h. (join_errors-ok _).1 ((attempts-nil_iff d ts s).1 h),
)

-- The targets after a place in the list are served from the state that the targets before it left,
-- whether those failed or not, and the errors of both parts are reported.
attempts-append :
    (d : Str) (ts us : List DistributeTarget) (s : Sys)
    → attempts d (ts ++ us) s ≡ (
      (attempts d ts s).0 ++ (attempts d us (attempts d ts s).1).0,
      (attempts d us (attempts d ts s).1).1,
    )
unfolding attempts
attempts-append d [] us s = refl
attempts-append d (t ∷ ts) us s =
    rw (attempts-append d ts us (one d t s).1) (rw (append_assoc (error_list (one d t s).0)))
