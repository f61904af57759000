-- ===== src/Command/Success.antt =====
-- An ensure cycle of cmd/syscert/ensure.go that nothing hinders reports success.
use syscert.Base.{◌≡◌, ap, ◌∙◌, Bool, true, false, none, List, [], ◌∷◌, All}
use syscert.Go.Strings.{Str}
use syscert.Go.Filepath.{resolve}
use syscert.Os.{ok, Host, Sys}
use syscert.Os.Calls.{is_prefix}
use syscert.Os.Progress.{IsKnown}
use syscert.Atomicfile.Returns.{IsClear}
use syscert.Config.{Config, DistributeTarget}
use syscert.Distribute.{run}
use syscert.Distribute.Served.{CanServe}
use syscert.Distribute.Targets.{AreTargets}
use syscert.Distribute.Progress.{run-succeeds}
use syscert.Store.{Artifact, build}
use syscert.Store.Disk.{read_current_cert}
use syscert.Store.Copies.{Kept}
use syscert.Store.Pruned.{archive_root}
use syscert.Store.Archived.{CanArchive, archive-returns}
use syscert.Store.Ready.{CanPlace-Kept, CanStore-Kept}
use syscert.Acme.{Obtained, obtain}
use syscert.Command.{Runtime, provision, eab_hmac, material}
use syscert.Command.Cycle.{need, ensure_cycle, after_provision, delivered_iff}
use syscert.Command.Rollout.{IsRolledOut}
use syscert.Command.Renewed.{MissOutputs, ensure_cycle-IsRolledOut}
use syscert.Command.Provision.{build-All}
use syscert.Command.Progress.{store_options, CanReceive, provision-CanServe}

-- A target that can be served, with a path outside the archive.
abbrev pub IsOpen : Str → Host → Sys → DistributeTarget → Type 0
IsOpen d h s t = CanReceive h s t × (is_prefix (archive_root d) (resolve t.path) ≡ false)

-- A host on which the store can be archived and written, and the targets can be served.
pub record CanRollOut (cfg : Config) (stamp : Str) (s : Sys) : Type 0 where
  pub store : CanArchive s.host cfg.store.path stamp s
  pub group : IsKnown s.host.group_of cfg.store.group
  pub targets : All (IsOpen cfg.store.path s.host s) cfg.distribute

still_open :
    (d : Str) (h : Host) (s u : Sys) (ts : List DistributeTarget)
    → Kept h (archive_root d) s u
    → All (IsOpen d h s) ts
    → All (CanReceive h u) ts
still_open d h s u [] k all = tt
still_open d h s u (t ∷ ts) k all = (
  record {
    usable = all.0.0.usable;
    place = CanPlace-Kept h _ s u k (resolve t.path) all.0.1 all.0.0.place;
  },
  still_open d h s u ts k all.1,
)

module _ (w : Runtime) (cfg : Config) (subject : Str) (staging : Bool) (s s1 : Sys) (res : Obtained)
    (arts : List Artifact) (apart : AreTargets cfg.store.path cfg.distribute) where
  -- The pipeline returns, and so does the delivery after it.
  provides :
      obtain w.obtainer cfg subject staging (eab_hmac w) s ≡ (ok res, s1)
      → build w.decoder (material res) cfg.bundle.order ≡ ok arts
      → CanRollOut cfg (w.stamp s1) s1
      → (u : Sys) × (provision w cfg subject staging s ≡ (ok arts, u))
        × ((run cfg.store.path cfg.distribute u).0 ≡ ok tt)
  provides given built can =
      let h = s1.host in
      let (s2, archived, k) =
        archive-returns h cfg.store.path (w.stamp s1) s1 can.store cfg.store.archive_keep in
      let (u, done, clear, all) =
        provision-CanServe w cfg subject staging h res arts s s1 s2 given built archived
          (CanStore-Kept h cfg.store.path (w.stamp s1) (store_options cfg) arts s1 s2
            (λ P. build-All P w.decoder (material res) cfg.bundle.order arts built) can.store
            can.group k)
          apart (still_open cfg.store.path h s1 s2 cfg.distribute k can.targets) in
      (u, done, run-succeeds cfg.store.path h cfg.distribute u clear apart all)

  provision_and_deliver :
      obtain w.obtainer cfg subject staging (eab_hmac w) s ≡ (ok res, s1)
      → build w.decoder (material res) cfg.bundle.order ≡ ok arts
      → CanRollOut cfg (w.stamp s1) s1
      → (after_provision w cfg subject (provision w cfg subject staging s)).0 ≡ none
  provision_and_deliver given built can =
      let (u, done, ran) = provides given built can in
      ap (λ r. (after_provision w cfg subject r).0) done ∙ (delivered_iff w cfg subject u).1 ran

renewal-succeeds :
    (w : Runtime) (cfg : Config) (subject : Str) (staging : Bool) (s s1 : Sys) (res : Obtained)
    (arts : List Artifact)
    → AreTargets cfg.store.path cfg.distribute
    → need w cfg (read_current_cert cfg.store.path s).0 (read_current_cert cfg.store.path s).1
      ≡ ok true
    → obtain w.obtainer cfg subject staging (eab_hmac w) (read_current_cert cfg.store.path s).1
      ≡ (ok res, s1)
    → build w.decoder (material res) cfg.bundle.order ≡ ok arts
    → CanRollOut cfg (w.stamp s1) s1
    → (ensure_cycle w cfg subject staging s).0 ≡ none
unfolding ensure_cycle
renewal-succeeds w cfg subject staging s s1 res arts apart due given built can = rw due (
    provision_and_deliver w cfg subject staging (read_current_cert cfg.store.path s).1 s1 res arts
      apart given built can)

-- If the certificate is missing or due, the CA gives one with at least one block, the environment
-- lets all calls through, no file has the name of a temporary one, on the host that the CA leaves the
-- store can be archived and written, the targets, which do not meet, can be served at paths outside
-- the archive, no target and no artifact of the store is at a path of the state files, and these paths
-- have no temporary name, then the cycle reports success, and in the state after it the artifacts
-- built of what the CA gave are in the store, and at every target the one that it names, under its
-- mode.
pub ensure_cycle-renews :
    (w : Runtime) (cfg : Config) (subject : Str) (staging : Bool) (s s1 : Sys) (res : Obtained)
    (arts : List Artifact)
    → AreTargets cfg.store.path cfg.distribute
    → MissOutputs cfg
    → need w cfg (read_current_cert cfg.store.path s).0 (read_current_cert cfg.store.path s).1
      ≡ ok true
    → obtain w.obtainer cfg subject staging (eab_hmac w) (read_current_cert cfg.store.path s).1
      ≡ (ok res, s1)
    → build w.decoder (material res) cfg.bundle.order ≡ ok arts
    → CanRollOut cfg (w.stamp s1) s1
    → ((ensure_cycle w cfg subject staging s).0 ≡ none)
      × IsRolledOut w cfg subject staging
          (read_current_cert cfg.store.path s).1
          (ensure_cycle w cfg subject staging s).1
ensure_cycle-renews w cfg subject staging s s1 res arts apart outputs due given built can =
    let done = renewal-succeeds w cfg subject staging s s1 res arts apart due given built can in
    (done, ensure_cycle-IsRolledOut w cfg subject staging s apart outputs due done)

-- If the certificate in the store can be read and is not due, the environment lets all calls through,
-- no file has the name of a temporary one, and the targets, which do not meet, can be served, then
-- the cycle reports success.
pub ensure_cycle-delivers :
    (w : Runtime) (cfg : Config) (subject : Str) (staging : Bool) (s : Sys)
    → AreTargets cfg.store.path cfg.distribute
    → need w cfg (read_current_cert cfg.store.path s).0 (read_current_cert cfg.store.path s).1
      ≡ ok false
    → IsClear s.host (read_current_cert cfg.store.path s).1
    → All (CanServe cfg.store.path s.host (read_current_cert cfg.store.path s).1) cfg.distribute
    → (ensure_cycle w cfg subject staging s).0 ≡ none
unfolding ensure_cycle
ensure_cycle-delivers w cfg subject staging s apart current clear all = rw current (
    (delivered_iff w cfg subject (read_current_cert cfg.store.path s).1).1
      (run-succeeds cfg.store.path s.host cfg.distribute _ clear apart all))
