-- ===== src/Command/Rollout.antt =====
-- From the CA to the targets, cmd/syscert/void.go: what a re-issue leaves in the store and at every target.
use syscert.Base.{
  ℕ, ◌≡◌, refl, sym, ap, subst, ◌∙◌, Bool, some, List, [], ◌∷◌, All, All-map, Any, Any-map,
  Any-both,
}
use syscert.Go.Strings.{Str}
use syscert.Go.Filepath.{resolve, in_dir}
use syscert.Os.{Result, ok, err, Sys, lookup}
use syscert.Os.Holds.{Holds, node_inj}
use syscert.Config.{Config, DistributeTarget}
use syscert.Distribute.{artifact_file, target_mode, run}
use syscert.Distribute.Targets.{
  AreTargets, Received, run-Received, run-Finds-names, artifact_file-All,
}
use syscert.Store.{Artifact, artifact_names}
use syscert.Store.Written.{Stored}
use syscert.Command.{Runtime, Args, provision, material}
use syscert.Command.Void.{void_reissue, void_provisioned, void_delivered}
use syscert.Command.Provision.{IsProvisioned, provision-IsProvisioned, build-names, build-All}

-- The target's file holds this artifact under the target's mode.
abbrev pub Carries : DistributeTarget → Sys → Artifact → Type 0
Carries t u a =
    (artifact_file t.artifact ≡ some a.name)
    × (mode : ℕ) × (target_mode t ≡ some mode)
    × Holds (resolve t.path) a.content mode u

-- In the last state, the artifacts built of what the CA gave are in the store, and at every target.
pub record IsRolledOut (w : Runtime) (cfg : Config) (subject : Str) (staging : Bool) (s u : Sys)
    : Type 0 where
  pub arts : List Artifact
  pub provisioned : IsProvisioned w cfg subject staging s arts u
  pub carried : All (λ t. Any (Carries t u) arts) cfg.distribute

-- What a target got from the store is one of the artifacts in it.
carried_by :
    (d : Str) (arts : List Artifact) (s u : Sys) (t : DistributeTarget)
    → Stored d arts s
    → All (λ name. Any (λ a. a.name ≡ name) arts) artifact_names
    → Received d s u t
    → Any (Carries t u) arts
carried_by d arts s u t stored names (name, file, (content, m, found, mode, right, held)) =
    Any-map _ _ arts (λ a h. carried a h.0 h.1)
      (Any-both _ _ arts stored
        (artifact_file-All (λ x. Any (λ a. a.name ≡ x) arts) t.artifact name names file))
  where
    carried :
        (a : Artifact) → Holds (in_dir d a.name) a.content a.mode s → a.name ≡ name → Carries t u a
    carried a (k, there, _) e =
        let same =
          (node_inj (sym found ∙ (ap (λ x. lookup (in_dir d x) s.fs) (sym e) ∙ there))).0 in
        (
          file ∙ ap some (sym e),
          mode,
          right,
          subst (λ c. Holds (resolve t.path) c mode u) same held,
        )

-- What is in the store stays there, as long as no file of an artifact changes.
pub Stored-later :
    (d : Str) (arts : List Artifact) (u v : Sys)
    → All (λ a. lookup (in_dir d a.name) v.fs ≡ lookup (in_dir d a.name) u.fs) arts
    → Stored d arts u
    → Stored d arts v
Stored-later d [] u v same h = tt
Stored-later d (a ∷ arts) u v same ((m, there, right), hs) =
    ((m, same.0 ∙ there, right), Stored-later d arts u v same.1 hs)

-- What holds of the names holds of those of the artifacts in the store.
pub provisioned-All :
    (w : Runtime) (cfg : Config) (subject : Str) (staging : Bool) (arts : List Artifact) (s t : Sys)
    (P : Str → Type 0)
    → IsProvisioned w cfg subject staging s arts t
    → All P artifact_names
    → All (λ a. P a.name) arts
provisioned-All w cfg subject staging arts s t P p all =
    build-All P w.decoder (material p.res) cfg.bundle.order arts p.built all

-- The artifacts are still in the store once a later state has their files unchanged.
pub IsProvisioned-later :
    (w : Runtime) (cfg : Config) (subject : Str) (staging : Bool) (arts : List Artifact)
    (s t u : Sys)
    → IsProvisioned w cfg subject staging s arts t
    → All
        (λ name.
          lookup (in_dir cfg.store.path name) u.fs ≡ lookup (in_dir cfg.store.path name) t.fs)
        artifact_names
    → IsProvisioned w cfg subject staging s arts u
IsProvisioned-later w cfg subject staging arts s t u p same = record {
  res = p.res;
  obtained = p.obtained;
  built = p.built;
  stored =
      Stored-later cfg.store.path arts t u (provisioned-All w cfg subject staging arts s t _ p same)
        p.stored;
}

-- A run that succeeds leaves the artifacts in the store.
run-IsProvisioned :
    (w : Runtime) (cfg : Config) (subject : Str) (staging : Bool) (arts : List Artifact) (s t : Sys)
    → AreTargets cfg.store.path cfg.distribute
    → IsProvisioned w cfg subject staging s arts t
    → (run cfg.store.path cfg.distribute t).0 ≡ ok tt
    → IsProvisioned w cfg subject staging s arts (run cfg.store.path cfg.distribute t).1
run-IsProvisioned w cfg subject staging arts s t apart p h =
    IsProvisioned-later w cfg subject staging arts s t (run cfg.store.path cfg.distribute t).1 p
      (run-Finds-names cfg.store.path cfg.distribute t apart h)

-- What a run delivers of a store that was just provisioned.
pub run-IsRolledOut :
    (w : Runtime) (cfg : Config) (subject : Str) (staging : Bool) (arts : List Artifact) (s t : Sys)
    → AreTargets cfg.store.path cfg.distribute
    → IsProvisioned w cfg subject staging s arts t
    → (run cfg.store.path cfg.distribute t).0 ≡ ok tt
    → IsRolledOut w cfg subject staging s (run cfg.store.path cfg.distribute t).1
run-IsRolledOut w cfg subject staging arts s t apart p h = record {
  arts = arts;
  provisioned = run-IsProvisioned w cfg subject staging arts s t apart p h;
  carried =
      All-map _ _ cfg.distribute
        (λ x.
          carried_by cfg.store.path arts t (run cfg.store.path cfg.distribute t).1 x p.stored
            (build-names _ _ _ arts p.built))
        (run-Received cfg.store.path cfg.distribute t apart h);
}

-- If the targets do not meet, then a re-issue that exits with 0 leaves, in its last state, the
-- artifacts built of what the CA gave in the store, and at every target the one that the target names,
-- under its mode.
pub void_reissue-IsRolledOut :
    (w : Runtime) (a : Args) (cfg : Config) (subject : Str) (revoked : Result (Unit {0})) (s : Sys)
    → AreTargets cfg.store.path cfg.distribute
    → (void_reissue w a cfg subject (revoked, s)).0 ≡ 0
    → IsRolledOut w cfg subject a.staging s (void_reissue w a cfg subject (revoked, s)).1
void_reissue-IsRolledOut w a cfg subject revoked s apart =
    go (provision w cfg subject a.staging s)
      (λ arts t e. provision-IsProvisioned w cfg subject a.staging arts s t e)
  where
    delivered :
        (t : Sys) (r : Result (Unit {0}) × Sys)
        → (r.0 ≡ ok tt → IsRolledOut w cfg subject a.staging s r.1)
        → (void_delivered revoked r).0 ≡ 0
        → IsRolledOut w cfg subject a.staging s (void_delivered revoked r).1
    delivered t (err e, u) f h = cc h
    delivered t (ok tt, u) f h = f refl

    go :
        (r : Result (List Artifact) × Sys)
        → ((arts : List Artifact) (t : Sys)
            → r ≡ (ok arts, t)
            → IsProvisioned w cfg subject a.staging s arts t)
        → (void_provisioned cfg revoked r).0 ≡ 0
        → IsRolledOut w cfg subject a.staging s (void_provisioned cfg revoked r).1
    go (err e, t) f h = cc h
    go (ok arts, t) f h =
        delivered t (run cfg.store.path cfg.distribute t)
          (run-IsRolledOut w cfg subject a.staging arts s t apart (f arts t refl)) h
