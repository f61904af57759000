-- ===== src/Command/Renewed.antt =====
-- What an ensure cycle of cmd/syscert/ensure.go leaves in the store and at every target, once it has renewed.
use syscert.Base.{◌≡◌, refl, ◌∙◌, Bool, true, none, List, [], ◌∷◌, All, All-map, Any, Any-map}
use syscert.Go.Strings.{Str}
use syscert.Go.Filepath.{resolve, in_dir}
use syscert.Os.{Result, ok, err, Sys, lookup}
use syscert.Config.{Config, DistributeTarget}
use syscert.Distribute.{run}
use syscert.Distribute.Targets.{AreTargets, names-IsPlain}
use syscert.Atomicfile.Names.{IsPlain, IsPlainPath}
use syscert.Store.{Artifact, artifact_names}
use syscert.Store.Written.{in_dir-IsPlainPath}
use syscert.Store.Disk.{read_current_cert}
use syscert.Observe.Files.{write_observations}
use syscert.Observe.Apart.{MissesOutputs, frame_write_observations}
use syscert.Command.{Runtime, provision}
use syscert.Command.Cycle.{need, deliver_and_observe, after_provision, ensure_cycle, delivered_iff}
use syscert.Command.Provision.{IsProvisioned, provision-IsProvisioned}
use syscert.Command.Rollout.{Carries, IsRolledOut, run-IsRolledOut, IsProvisioned-later}

-- No target and no artifact of the store is at a path of the state files, and these have no temporary
-- name.
abbrev pub MissOutputs : Config → Type 0
MissOutputs cfg =
    All (λ t. IsPlainPath (resolve t.path) × MissesOutputs cfg (resolve t.path)) cfg.distribute
    × All (λ name. MissesOutputs cfg (in_dir cfg.store.path name)) artifact_names

carried_later :
    (t : DistributeTarget) (arts : List Artifact) (u v : Sys)
    → lookup (resolve t.path) v.fs ≡ lookup (resolve t.path) u.fs
    → Any (Carries t u) arts
    → Any (Carries t v) arts
carried_later t arts u v same =
    Any-map _ _ arts
      λ a (file, mode, right, (m, there, set)). (file, mode, right, (m, same ∙ there, set))

module _ (w : Runtime) (cfg : Config) (subject : Str) (staging : Bool)
    (apart : AreTargets cfg.store.path cfg.distribute) (outputs : MissOutputs cfg) (s : Sys) where
  All-later :
      (ts : List DistributeTarget) (arts : List Artifact) (u v : Sys)
      → All (λ t. lookup (resolve t.path) v.fs ≡ lookup (resolve t.path) u.fs) ts
      → All (λ t. Any (Carries t u) arts) ts
      → All (λ t. Any (Carries t v) arts) ts
  All-later [] arts u v same h = tt
  All-later (t ∷ ts) arts u v same h =
      (carried_later t arts u v same.0 h.0, All-later ts arts u v same.1 h.1)

  -- Writing the state files leaves the artifacts in the store as they were.
  unobserved :
      (u : Sys)
      → All
          (λ name.
            lookup
              (in_dir cfg.store.path name)
              (write_observations w.parsers w.version w.marshal cfg subject (w.clock u) u).fs
            ≡ lookup (in_dir cfg.store.path name) u.fs)
          artifact_names
  unobserved u =
      let (pa, (pb, (pc, (pe, (pf, _))))) = names-IsPlain in
      let (a, (b, (c, (e, (f, _))))) = outputs.1 in
      (at _ pa a, (at _ pb b, (at _ pc c, (at _ pe e, (at _ pf f, tt)))))
    where
      at :
          (name : Str)
          → IsPlain name
          → MissesOutputs cfg (in_dir cfg.store.path name)
          → lookup
              (in_dir cfg.store.path name)
              (write_observations w.parsers w.version w.marshal cfg subject (w.clock u) u).fs
            ≡ lookup (in_dir cfg.store.path name) u.fs
      at name plain =
          frame_write_observations (in_dir cfg.store.path name)
            (in_dir-IsPlainPath cfg.store.path name plain) w.parsers w.version w.marshal cfg subject
            (w.clock u) u

  delivered :
      (arts : List Artifact) (t : Sys)
      → IsProvisioned w cfg subject staging s arts t
      → (deliver_and_observe w cfg subject t).0 ≡ none
      → IsRolledOut w cfg subject staging s (deliver_and_observe w cfg subject t).1
  unfolding deliver_and_observe
  delivered arts t p h =
      let out =
        run-IsRolledOut w cfg subject staging arts s t apart p
          ((delivered_iff w cfg subject t).0 h) in
      let u = (run cfg.store.path cfg.distribute t).1 in
      record {
        arts = out.arts;
        provisioned =
            IsProvisioned-later w cfg subject staging out.arts s u
              (write_observations w.parsers w.version w.marshal cfg subject (w.clock u) u)
              out.provisioned (unobserved u);
        carried =
            All-later cfg.distribute out.arts u
              (write_observations w.parsers w.version w.marshal cfg subject (w.clock u) u)
              (All-map _ _ cfg.distribute
                (λ x k.
                  frame_write_observations (resolve x.path) k.0 w.parsers w.version w.marshal cfg
                    subject (w.clock u) u k.1)
                outputs.0)
              out.carried;
      }

  after_provision-IsRolledOut :
      (r : Result (List Artifact) × Sys)
      → ((arts : List Artifact) (t : Sys)
          → r ≡ (ok arts, t)
          → IsProvisioned w cfg subject staging s arts t)
      → (after_provision w cfg subject r).0 ≡ none
      → IsRolledOut w cfg subject staging s (after_provision w cfg subject r).1
  after_provision-IsRolledOut (err e, t) f h = cc h
  after_provision-IsRolledOut (ok arts, t) f h = delivered arts t (f arts t refl) h

-- If the targets do not meet, no target and no artifact of the store is at a path of the state files,
-- and these have no temporary name, then a cycle that finds the certificate missing or due and reports
-- success leaves, in the state after it, the artifacts built of what the CA gave in the store, and at
-- every target the one that the target names, under its mode.
pub ensure_cycle-IsRolledOut :
    (w : Runtime) (cfg : Config) (subject : Str) (staging : Bool) (s : Sys)
    → AreTargets cfg.store.path cfg.distribute
    → MissOutputs cfg
    → need w cfg (read_current_cert cfg.store.path s).0 (read_current_cert cfg.store.path s).1
      ≡ ok true
    → (ensure_cycle w cfg subject staging s).0 ≡ none
    → IsRolledOut w cfg subject staging
        (read_current_cert cfg.store.path s).1
        (ensure_cycle w cfg subject staging s).1
unfolding ensure_cycle
ensure_cycle-IsRolledOut w cfg subject staging s apart outputs due = rw due (
    after_provision-IsRolledOut w cfg subject staging apart outputs
      (read_current_cert cfg.store.path s).1
      (provision w cfg subject staging (read_current_cert cfg.store.path s).1)
      (λ arts t e. provision-IsProvisioned w cfg subject staging arts _ t e))
