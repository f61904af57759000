-- ===== src/Distribute/Targets.antt =====
-- What a run of internal/distribute/distribute.go leaves at all its targets.
use syscert.Base.{
  ◌≡◌, ◌≢◌, refl, sym, ap, subst, ◌∙◌, Option, none, some, List, [], ◌∷◌, All, All-map, true, false,
  Bool, if◌then◌else◌,
}
use syscert.Go.Strings.{Str, lit, str_eq, has_prefix}
use syscert.Go.Filepath.{FilePath, resolve, in_dir}
use syscert.Os.{lookup, Result, ok, err, Error, Sys, Exec, raise}
use syscert.Os.Triples.{Outcome}
use syscert.Atomicfile.Names.{IsPlain, IsPlainPath, last_part-snoc}
use syscert.Config.{DistributeTarget}
use syscert.Store.{artifact_names}
use syscert.Store.Written.{in_dir-IsPlainPath}
use syscert.Distribute.{artifact_file, one, deliver, attempts, run}
use syscert.Distribute.Received.{Copied, deliver-Copied, deliver-Finds}
use syscert.Distribute.Delivery.{Visits, run-ok_iff}

-- Targets that do not meet: each path is no temporary name, and is no artifact of the store and no
-- path of a later target.
abbrev pub AreTargets : Str → List DistributeTarget → Type 0
AreTargets d [] = Unit {0}
AreTargets d (t ∷ ts) =
    IsPlainPath (resolve t.path)
    × All (λ name. resolve t.path ≢ in_dir d name) artifact_names
    × All (λ u. resolve t.path ≢ resolve u.path) ts
    × AreTargets d ts

-- The target's file holds, under the target's mode, the content that the store had for its artifact.
abbrev pub Received : Str → Sys → Sys → DistributeTarget → Type 0
Received d s u t =
    (name : Str) × (artifact_file t.artifact ≡ some name) × Copied t (lookup (in_dir d name) s.fs) u

-- Every file that an artifact names is one of the store.
pub artifact_file-All :
    (P : Str → Type 0) (a name : Str) → All P artifact_names → artifact_file a ≡ some name → P name
unfolding artifact_file
artifact_file-All P a name (p1, (p2, (p3, (p4, (p5, _))))) =
    go (str_eq a (lit "cert")) (str_eq a (lit "privkey")) (str_eq a (lit "chain"))
      (str_eq a (lit "fullchain")) (str_eq a (lit "bundle"))
  where
    at : {x : Str} → P x → some x ≡ some name → P name
    at p e = subst P (cc) p

    go :
        (b1 b2 b3 b4 b5 : Bool)
        → (if b1
            then some (lit "cert.pem")
            else if b2
            then some (lit "privkey.pem")
            else if b3
            then some (lit "chain.pem")
            else if b4
            then some (lit "fullchain.pem")
            else if b5
            then some (lit "bundle.pem")
            else none)
          ≡ some name
        → P name
    go true b2 b3 b4 b5 h = at p1 h
    go false true b3 b4 b5 h = at p2 h
    go false false true b4 b5 h = at p3 h
    go false false false true b5 h = at p4 h
    go false false false false true h = at p5 h
    go false false false false false h = cc h

pub names-IsPlain : All IsPlain artifact_names
unfolding has_prefix lit
names-IsPlain = (refl, (refl, (refl, (refl, (refl, tt)))))

stored-IsPlainPath : (d a name : Str) → artifact_file a ≡ some name → IsPlainPath (in_dir d name)
stored-IsPlainPath d a name h =
    ap (λ x. has_prefix x (lit ".syscert-")) (last_part-snoc (resolve d) name)
    ∙ artifact_file-All IsPlain a name names-IsPlain h

abbrev looked_up : Str → DistributeTarget → Option Str → Exec (Unit {0})
looked_up d t o = elim o [
  | none ↦ raise (Error.text "distribute %s: unknown artifact %q" (t.path ∷ t.artifact ∷ []))
  | some file ↦ deliver d t file
]

Outcome-ok :
    (Q E : Sys → Type 0) (r : Result (Unit {0})) (s : Sys)
    → r ≡ ok tt
    → Outcome (λ _. Q) E r s
    → Q s
Outcome-ok Q E (ok u) s h k = k
Outcome-ok Q E (err e) s h k = cc h

module _ (d : Str) (t : DistributeTarget) (plain : IsPlainPath (resolve t.path)) (s : Sys) where
  one-Received : (one d t s).0 ≡ ok tt → Received d s (one d t s).1 t
  unfolding one raise
  one-Received = go (artifact_file t.artifact) refl
    where
      go :
          (o : Option Str)
          → artifact_file t.artifact ≡ o
          → (looked_up d t o s).0 ≡ ok tt
          → Received d s (looked_up d t o s).1 t
      go none e h = absurd (cc h)
      go (some name) e h =
          (name, e, Outcome-ok _ _ _ _ h ((deliver-Copied d t name plain _).at s refl))

  one-Finds :
      (q : FilePath)
      → IsPlainPath q
      → resolve t.path ≢ q
      → (one d t s).0 ≡ ok tt
      → lookup q (one d t s).1.fs ≡ lookup q s.fs
  unfolding one raise
  one-Finds q other ne = go (artifact_file t.artifact)
    where
      go :
          (o : Option Str)
          → (looked_up d t o s).0 ≡ ok tt
          → lookup q (looked_up d t o s).1.fs ≡ lookup q s.fs
      go none h = absurd (cc h)
      go (some name) h =
          Outcome-ok _ _ _ _ h ((deliver-Finds d t name plain q (lookup q s.fs) other ne).at s refl)

abbrev Succeeds : Str → List DistributeTarget → Sys → Type 0
Succeeds d = Visits d (λ t u. (one d t u).0 ≡ ok tt)

attempts-Finds :
    (d : Str) (q : FilePath) (ts : List DistributeTarget) (s : Sys)
    → IsPlainPath q
    → AreTargets d ts
    → All (λ u. q ≢ resolve u.path) ts
    → Succeeds d ts s
    → lookup q (attempts d ts s).1.fs ≡ lookup q s.fs
unfolding attempts
attempts-Finds d q [] s plain apart ne h = refl
attempts-Finds d q (t ∷ ts) s plain apart ne h =
    attempts-Finds d q ts (one d t s).1 plain apart.3 ne.1 h.1
    ∙ one-Finds d t apart.0 s q plain (λ e. ne.0 (sym e)) h.0

Received-later :
    (d : Str) (s u v : Sys) (t : DistributeTarget)
    → lookup (resolve t.path) v.fs ≡ lookup (resolve t.path) u.fs
    → Received d s u t
    → Received d s v t
Received-later d s u v t e (name, n, (c, m, x, mode, r, (k, there, right))) =
    (name, n, (c, m, x, mode, r, (k, e ∙ there, right)))

Received-earlier :
    (d : Str) (s s' u : Sys) (t : DistributeTarget)
    → ((name : Str)
        → artifact_file t.artifact ≡ some name
        → lookup (in_dir d name) s'.fs ≡ lookup (in_dir d name) s.fs)
    → Received d s' u t
    → Received d s u t
Received-earlier d s s' u t e (name, n, (c, m, x, mode, r, k)) =
    (name, n, (c, m, sym (e name n) ∙ x, mode, r, k))

attempts-Received :
    (d : Str) (ts : List DistributeTarget) (s : Sys)
    → AreTargets d ts
    → Succeeds d ts s
    → All (Received d s (attempts d ts s).1) ts
unfolding attempts
attempts-Received d [] s apart h = tt
attempts-Received d (t ∷ ts) s apart h = (
  Received-later d s (one d t s).1 (attempts d ts (one d t s).1).1 t
      (attempts-Finds d (resolve t.path) ts (one d t s).1 apart.0 apart.3 apart.2 h.1)
      (one-Received d t apart.0 s h.0),
  All-map _ _ ts
      (λ u. Received-earlier d s (one d t s).1 (attempts d ts (one d t s).1).1 u (λ name e.
        one-Finds d t apart.0 s (in_dir d name) (stored-IsPlainPath d u.artifact name e)
          (artifact_file-All (λ x. resolve t.path ≢ in_dir d x) u.artifact name apart.1 e) h.0))
      (attempts-Received d ts (one d t s).1 apart.3 h.1),
)

-- A run that succeeds leaves a file that is at no target as it was.
run-Finds :
    (d : Str) (q : FilePath) (ts : List DistributeTarget) (s : Sys)
    → IsPlainPath q
    → AreTargets d ts
    → All (λ u. q ≢ resolve u.path) ts
    → (run d ts s).0 ≡ ok tt
    → lookup q (run d ts s).1.fs ≡ lookup q s.fs
unfolding run
run-Finds d q ts s plain apart ne h =
    attempts-Finds d q ts s plain apart ne ((run-ok_iff d ts s).0 h)

-- No target is at an artifact of the store.
AreTargets-apart :
    (d : Str) (ts : List DistributeTarget)
    → AreTargets d ts
    → All (λ name. All (λ u. in_dir d name ≢ resolve u.path) ts) artifact_names
AreTargets-apart d [] apart = (tt, (tt, (tt, (tt, (tt, tt)))))
AreTargets-apart d (t ∷ ts) apart =
    let (a, (b, (c, (e, (f, _))))) = AreTargets-apart d ts apart.3 in
    let (ka, (kb, (kc, (ke, (kf, _))))) = apart.1 in
    (
      (λ x. ka (sym x), a),
      (
        (λ x. kb (sym x), b),
        ((λ x. kc (sym x), c), ((λ x. ke (sym x), e), ((λ x. kf (sym x), f), tt))),
      ),
    )

-- A run that succeeds leaves the artifacts in the store as they were.
pub run-Finds-names :
    (d : Str) (ts : List DistributeTarget) (s : Sys)
    → AreTargets d ts
    → (run d ts s).0 ≡ ok tt
    → All
        (λ name. lookup (in_dir d name) (run d ts s).1.fs ≡ lookup (in_dir d name) s.fs)
        artifact_names
run-Finds-names d ts s apart h =
    let (a, (b, (c, (e, (f, _))))) = AreTargets-apart d ts apart in
    let (pa, (pb, (pc, (pe, (pf, _))))) = names-IsPlain in
    (at _ pa a, (at _ pb b, (at _ pc c, (at _ pe e, (at _ pf f, tt)))))
  where
    at :
        (name : Str)
        → IsPlain name
        → All (λ u. in_dir d name ≢ resolve u.path) ts
        → lookup (in_dir d name) (run d ts s).1.fs ≡ lookup (in_dir d name) s.fs
    at name plain ne = run-Finds d (in_dir d name) ts s (in_dir-IsPlainPath d name plain) apart ne h

-- If the targets do not meet, then a run that returns no error leaves at every target's path, under
-- the target's mode, the content that the store had for its artifact when the run began.
pub run-Received :
    (d : Str) (ts : List DistributeTarget) (s : Sys)
    → AreTargets d ts
    → (run d ts s).0 ≡ ok tt
    → All (Received d s (run d ts s).1) ts
unfolding run
run-Received d ts s apart h = attempts-Received d ts s apart ((run-ok_iff d ts s).0 h)
