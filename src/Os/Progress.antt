-- ===== src/Os/Progress.antt =====
-- Actions that return: while the environment lets all calls through, on a host that stays the same.
use syscert.Base.{ℕ, false, ◌≡◌, ap, ◌∙◌, sym, subst, Option, none, some, List, [], refl}
use Prim.Native.String.{String}
use syscert.Go.Strings.{Str, is_empty}
use syscert.Os.{
  Result, ok, err, Error, Host, Sys, Exec, pure, ◌>>=◌, wrapping, Fault, call, advance, next_fault,
  later_faults, continue, lookup,
}
use syscert.Go.Filepath.{FilePath}
use syscert.Os.Calls.{read_file, read_node}
use syscert.Os.Writes.{HasContent}
use syscert.Os.Triples.{Outcome, Triple, Triple-wrapping, Triple-pure}

abbrev pub Never : Sys → Type 0
Never s = ⊥

-- No call will fail by the environment's choice.
pub record Still (h : Host) (s : Sys) : Type 0 where
  pub faults : s.faults ≡ []
  pub host : s.host ≡ h

-- No name, or one that the host knows.
abbrev pub IsKnown : (Str → Option ℕ) → Str → Type 0
IsKnown ids name = is_empty name ≡ false → (n : ℕ) × (ids name ≡ some n)

pub call_unfaulted :
    {A : Type 0} (act : Exec A) (s : Sys)
    → next_fault s.faults ≡ none
    → call act s ≡ act (advance s)
unfolding call
call_unfaulted {A} act s = go (next_fault s.faults)
  where
    go :
        (f : Option Fault)
        → f ≡ none
        → ◌≡◌ {A = Result A × Sys}
            (elim f [ none ↦ act (advance s) | some x ↦ (err (Error.sys x.errno), advance s) ])
            (act (advance s))
    go none e = refl
    go (some x) e = cc e

pub advance-none : (s : Sys) → s.faults ≡ [] → advance s ≡ s
advance-none s e =
    ap (λ f. record s { faults = later_faults f }) e ∙ ap (λ f. record s { faults = f }) (sym e)

pub wrapped :
    {A : Type 0} (format : String) (values : List Str) (m : Exec A) (a : A) (s t : Sys)
    → m s ≡ (ok a, t)
    → wrapping format values m s ≡ (ok a, t)
unfolding wrapping
wrapped format values m a s t h = rw (h, wrapping) (ap (λ x. (ok a, x.1)) h)

pub bound :
    {A B : Type 0} (m : Exec A) (f : A → Exec B) (a : A) (s t : Sys)
    → m s ≡ (ok a, t)
    → (m >>= f) s ≡ f a t
unfolding ◌>>=◌
bound m f a s t h = ap (λ r. continue r.0 f r.1) h

pub read_unfaulted :
    (p : FilePath) (content : Str) (s : Sys)
    → HasContent p content s.fs
    → next_fault s.faults ≡ none
    → read_file p s ≡ (ok content, advance s)
unfolding read_file
read_unfaulted p content s (m, there) free =
    call_unfaulted (λ s. read_node (lookup p s.fs) s) s free
    ∙ ap (λ o. read_node o (advance s)) there

pub call_still : {A : Type 0} (act : Exec A) (s : Sys) → s.faults ≡ [] → call act s ≡ act s
call_still act s e = call_unfaulted act s (ap next_fault e) ∙ ap act (advance-none s e)

module _ (h : Host) where
  -- With the calls let through, `m` returns from a state with `P`, and stays on the host.
  abbrev pub Returns : {A : Type 0} → (Sys → Type 0) → Exec A → Type 0
  Returns P m = Triple (λ s. P s × Still h s) m (λ _. Still h) Never

  module _ {A : Type 0} {P : Sys → Type 0} {Q : A → Sys → Type 0} {E : Sys → Type 0} where
    -- What holds if an action returns, holds when it does.
    pub Returns-with :
        (S : A → Sys → Type 0) (m : Exec A)
        → Triple P m Q E
        → Triple (λ s. P s × Still h s) m S Never
        → Triple (λ s. P s × Still h s) m (λ a s. Q a s × S a s) Never
    Returns-with S m t r = record { at = λ s p. go (m s).0 (m s).1 (t.at s p.0) (r.at s p) }
      where
        go :
            (r : Result A) (u : Sys)
            → Outcome Q E r u
            → Outcome S Never r u
            → Outcome (λ a s. Q a s × S a s) Never r u
        go (ok a) u x y = (x, y)
        go (err e) u x y = y

  module _ {A : Type 0} (P : Sys → Type 0) where
    pub Returns-call :
        (S : A → Sys → Type 0) (act : Exec A)
        → ((s : Sys) → P s → Still h s → Outcome S Never (act s).0 (act s).1)
        → Triple (λ s. P s × Still h s) (call act) S Never
    Returns-call S act f = record {
      at = λ s (p, still).
          subst (λ r. Outcome S Never r.0 r.1) (sym (call_still act s still.faults)) (f s p still);
    }

    pub Returns-wrapping :
        (format : String) (values : List Str) (m : Exec A)
        → Returns P m
        → Returns P (wrapping format values m)
    Returns-wrapping format values m r = Triple-wrapping format values m r

    pub Returns-pure : (a : A) → Returns P (pure a)
    Returns-pure a = Triple-pure a (λ s p. p.1)
