-- ===== src/Command/Progress.antt =====
-- The provisioning pipeline of cmd/syscert/common.go returns, where the CA answers and nothing hinders it.
use syscert.Base.{◌≡◌, ◌≢◌, sym, ap, ◌∙◌, Bool, some, List, [], ◌∷◌, All, Any, inl, inr}
use syscert.Go.Strings.{Str}
use syscert.Go.Filepath.{FilePath, resolve, in_dir}
use syscert.Os.{ok, file, Meta, lookup, Host, Sys, is_dir_node, parent, pure}
use syscert.Os.Progress.{bound}
use syscert.Atomicfile.Returns.{IsClear, CanPlace}
use syscert.Config.{Config, DistributeTarget, parsed_dir_mode}
use syscert.Distribute.Served.{IsUsable, CanServe}
use syscert.Distribute.Targets.{AreTargets, artifact_file-All}
use syscert.Store.{Artifact, artifact_names, build}
use syscert.Store.Disk.{WriteOptions, archive}
use syscert.Store.Written.{Stored}
use syscert.Store.Progress.{CanStore, Wrote, Wrote-is_dir, write-returns}
use syscert.Acme.{Obtained, obtain}
use syscert.Command.{Runtime, provision, eab_hmac, material, lift}
use syscert.Command.Provision.{build-All, build-AreNames, build-names, provision-IsProvisioned}

abbrev IsFile : FilePath → Sys → Type 0
IsFile p s = (content : Str) × (m : Meta) × (lookup p s.fs ≡ some (file content m))

stored-IsFile :
    (d name : Str) (s : Sys) (arts : List Artifact)
    → Stored d arts s
    → Any (λ a. a.name ≡ name) arts
    → IsFile (in_dir d name) s
stored-IsFile d name s (a ∷ arts) (h, hs) (inl e) =
    (a.content, h.0, ap (λ x. lookup (in_dir d x) s.fs) (sym e) ∙ h.1)
stored-IsFile d name s (a ∷ arts) (h, hs) (inr more) = stored-IsFile d name s arts hs more
stored-IsFile d name s [] h k = elim k [ ]

abbrev pub store_options : Config → WriteOptions
store_options cfg = record { dir_mode = parsed_dir_mode cfg.store; group = cfg.store.group }

-- The settings of the target can be used, and its file can be put there.
pub record CanReceive (h : Host) (s : Sys) (t : DistributeTarget) : Type 0 where
  pub usable : IsUsable h t
  pub place : CanPlace (resolve t.path) s

module _ (w : Runtime) (cfg : Config) (subject : Str) (staging : Bool) (h : Host) (res : Obtained)
    (arts : List Artifact) (s s1 s2 : Sys)
    (given : obtain w.obtainer cfg subject staging (eab_hmac w) s ≡ (ok res, s1))
    (built : build w.decoder (material res) cfg.bundle.order ≡ ok arts)
    (archived : archive cfg.store.path cfg.store.archive_keep (w.stamp s1) s1 ≡ (ok tt, s2))
    (can : CanStore h cfg.store.path arts (store_options cfg) s2) where
  provision-returns :
      (u : Sys) × (provision w cfg subject staging s ≡ (ok arts, u))
      × Wrote h cfg.store.path arts s2 u
  unfolding provision pure
  provision-returns =
      let (u, e, d) =
        write-returns h cfg.store.path arts (store_options cfg) s2 can
          (build-AreNames w.decoder (material res) cfg.bundle.order arts built) in
      (
        u,
        bound _ _ res s s1 given
            ∙ bound _ _ arts s1 s1 (ap (λ r. lift r s1) built)
            ∙ bound _ _ tt s1 s2 archived
            ∙ bound _ _ tt s2 u e,
        d,
      )

  -- A target that is apart from the store can be served then.
  serves :
      (u : Sys)
      → Wrote h cfg.store.path arts s2 u
      → Stored cfg.store.path arts u
      → (t : DistributeTarget)
      → All (λ name. resolve t.path ≢ in_dir cfg.store.path name) artifact_names
      → CanReceive h s2 t
      → CanServe cfg.store.path h u t
  serves u d stored t apart r = record {
    usable = r.usable;
    content = found.0;
    meta = found.1;
    found = found.2;
    place = record {
      plain = r.place.plain;
      there =
          Wrote-is_dir h cfg.store.path arts (store_options cfg) s2 can u d
            (parent (resolve t.path)) r.place.there;
      over = ap is_dir_node same ∙ r.place.over;
    };
  }
    where
      same : lookup (resolve t.path) u.fs ≡ lookup (resolve t.path) s2.fs
      same =
          d.same (resolve t.path)
            (λ e. cc (
              ap (λ x. is_dir_node (lookup x s2.fs)) e,
              ap is_dir_node can.dir_there.1,
              r.place.over,
            ))
            (build-All (λ x. resolve t.path ≢ in_dir cfg.store.path x) w.decoder (material res)
              cfg.bundle.order arts built apart)

      found : IsFile (in_dir cfg.store.path r.usable.name) u
      found = stored-IsFile cfg.store.path r.usable.name u arts stored (
          artifact_file-All (λ x. Any (λ a. a.name ≡ x) arts) t.artifact r.usable.name
            (build-names w.decoder (material res) cfg.bundle.order arts built) r.usable.named)

  All-serve :
      (u : Sys)
      → Wrote h cfg.store.path arts s2 u
      → Stored cfg.store.path arts u
      → (ts : List DistributeTarget) → AreTargets cfg.store.path ts
      → All (CanReceive h s2) ts
      → All (CanServe cfg.store.path h u) ts
  All-serve u d stored [] apart all = tt
  All-serve u d stored (t ∷ ts) apart all =
      (serves u d stored t apart.1 all.0, All-serve u d stored ts apart.3 all.1)

  -- The pipeline returns, and the targets can be served then.
  pub provision-CanServe :
      AreTargets cfg.store.path cfg.distribute
      → All (CanReceive h s2) cfg.distribute
      → (u : Sys) × (provision w cfg subject staging s ≡ (ok arts, u))
        × IsClear h u
        × All (CanServe cfg.store.path h u) cfg.distribute
  provision-CanServe apart all =
      let (u, e, d) = provision-returns in
      (
        u,
        e,
        d.clear,
        All-serve u d (provision-IsProvisioned w cfg subject staging arts s u e).stored
            cfg.distribute apart all,
      )
