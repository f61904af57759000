-- ===== src/Tests/Progress.antt =====
-- Examples of runs that nothing hinders.
use syscert.Base.{◌++◌, true, ◌≡◌, refl, false, none, [], ◌∷◌, All}
use syscert.Base.Int.{pos}
use syscert.Go.Strings.{lit, Str}
use syscert.Go.Filepath.{FilePath, in_dir, resolve}
use syscert.Os.{directory, Sys, ok, lookup}
use syscert.Os.Laws.{path_ne}
use syscert.Atomicfile.Names.{plain-free}
use syscert.Atomicfile.Returns.{IsClear, CanPlace}
use syscert.Config.{Config}
use syscert.Store.{artifact_names}
use syscert.Store.Disk.{archive, read_current_cert, archive_files, prune_archive}
use syscert.Store.Copies.{Kept, CanCopy}
use syscert.Store.Snapped.{Snapped, names-ArePlain, archive_files-Snapped}
use syscert.Store.Retained.{prune_archive-latest}
use syscert.Os.Calls.{is_prefix}
use syscert.Store.Pruned.{archive_root}
use syscert.Store.Archived.{CanArchive, archive-returns}
use syscert.Distribute.{run}
use syscert.Distribute.Served.{CanServe, IsUsable}
use syscert.Distribute.Targets.{Received}
use syscert.Distribute.Progress.{run-delivers}
use syscert.Acme.{Obtained}
use syscert.Command.{Runtime}
use syscert.Command.Cycle.{ensure_cycle}
use syscert.Command.Rollout.{IsRolledOut}
use syscert.Command.Renewed.{MissOutputs}
use syscert.Command.Success.{IsOpen, ensure_cycle-renews, ensure_cycle-delivers}
use syscert.Tests.{owned, service_host, running, cert_target, plain_config}
use syscert.Tests.Runs.{machine}
use syscert.Tests.Rollouts.{targets_apart, five_artifacts}

running-IsClear : IsClear service_host running
unfolding lit syscert.Go.Strings.has_prefix syscert.Go.Filepath.last_part
running-IsClear = record {
  still = record { faults = refl; host = refl };
  free = plain-free running.fs (refl, (refl, (refl, tt)));
}

target_place : CanPlace (resolve (lit "/t/x.pem")) running
unfolding lit syscert.Go.Strings.has_prefix syscert.Go.Filepath.last_part resolve
    syscert.Go.Strings.split syscert.Go.Strings.str_eq syscert.Os.path_eq lookup
    syscert.Go.Filepath.clean_parts syscert.Go.Filepath.clean_step
target_place = record { plain = refl; there = refl; over = refl }

target_usable : IsUsable service_host cert_target
unfolding lit syscert.Go.Strings.str_eq syscert.Distribute.artifact_file
    syscert.Distribute.target_mode syscert.Distribute.default_mode
target_usable = record {
  name = lit "cert.pem";
  named = refl;
  mode = 0o644;
  moded = refl;
  owner = λ e. cc e;
  group = λ e. cc e;
}

target_served : CanServe (lit "/s") service_host running cert_target
unfolding lit resolve syscert.Go.Strings.split syscert.Go.Strings.str_eq syscert.Os.path_eq lookup
    syscert.Go.Filepath.clean_parts syscert.Go.Filepath.clean_step target_usable
target_served = record {
  usable = target_usable;
  content = lit "C";
  meta = owned 0o644;
  found = refl;
  place = target_place;
}

run-delivers_example :
    ((run (lit "/s") (cert_target ∷ []) running).0 ≡ ok tt)
    × All
        (Received (lit "/s") running (run (lit "/s") (cert_target ∷ []) running).1)
        (cert_target ∷ [])
run-delivers_example =
    run-delivers (lit "/s") (cert_target ∷ []) running running-IsClear targets_apart
      (target_served, tt)

-- Two snapshots are kept.
abbrev keeping : Config
keeping = record plain_config { store = record plain_config.store { archive_keep = pos 2 } }

-- The certificate is due.
abbrev late : Runtime
late = record machine { clock = λ _. pos 95 }

store_archived : CanArchive service_host (lit "/s") (lit "20250101T000000Z") running
unfolding lit resolve syscert.Go.Strings.split syscert.Go.Strings.str_eq syscert.Os.path_eq lookup
    syscert.Go.Filepath.clean_parts syscert.Go.Filepath.clean_step syscert.Go.Strings.has_prefix
store_archived = record {
  clear = running-IsClear;
  dir_there = (owned 0o700, refl);
  above = (refl, tt);
  plain = refl;
  root_free = refl;
  dest_free = refl;
  source = (refl, (refl, (refl, (refl, (refl, tt)))));
  slot = (refl, (refl, (refl, (refl, (refl, tt)))));
}

archive-returns_example :
    (u : Sys) × (archive (lit "/s") (pos 2) (lit "20250101T000000Z") running ≡ (ok tt, u))
    × Kept service_host (archive_root (lit "/s")) running u
archive-returns_example =
    archive-returns service_host (lit "/s") (lit "20250101T000000Z") running store_archived (pos 2)

target-IsOpen : IsOpen (lit "/s") service_host running cert_target
unfolding lit resolve syscert.Go.Strings.split syscert.Go.Strings.str_eq syscert.Os.Calls.is_prefix
    syscert.Go.Filepath.clean_parts syscert.Go.Filepath.clean_step
target-IsOpen = (record { usable = target_usable; place = target_place }, refl)

abbrev issued : Obtained
issued = record {
  identifiers = lit "h.example" ∷ [];
  certificate = lit "LI";
  private_key = lit "K";
  issuer_certificate = lit "I";
}

outputs_missed : MissOutputs keeping
unfolding lit resolve syscert.Go.Strings.split syscert.Go.Strings.str_eq syscert.Os.path_eq
    syscert.Go.Filepath.clean_parts syscert.Go.Filepath.clean_step syscert.Go.Strings.has_prefix
    syscert.Go.Filepath.last_part
outputs_missed = (
  (
    (
      refl,
      (
        refl,
        refl,
        path_ne (resolve (lit "/t/x.pem")) (resolve (lit "/m/a.prom")) refl,
        path_ne (resolve (lit "/t/x.pem")) (resolve []) refl,
      ),
    ),
    tt,
  ),
  (
    (
      refl,
      refl,
      path_ne (in_dir (lit "/s") (lit "cert.pem")) (resolve (lit "/m/a.prom")) refl,
      path_ne (in_dir (lit "/s") (lit "cert.pem")) (resolve []) refl,
    ),
    (
      (
        refl,
        refl,
        path_ne (in_dir (lit "/s") (lit "privkey.pem")) (resolve (lit "/m/a.prom")) refl,
        path_ne (in_dir (lit "/s") (lit "privkey.pem")) (resolve []) refl,
      ),
      (
        (
          refl,
          refl,
          path_ne (in_dir (lit "/s") (lit "chain.pem")) (resolve (lit "/m/a.prom")) refl,
          path_ne (in_dir (lit "/s") (lit "chain.pem")) (resolve []) refl,
        ),
        (
          (
            refl,
            refl,
            path_ne (in_dir (lit "/s") (lit "fullchain.pem")) (resolve (lit "/m/a.prom")) refl,
            path_ne (in_dir (lit "/s") (lit "fullchain.pem")) (resolve []) refl,
          ),
          (
            (
              refl,
              refl,
              path_ne (in_dir (lit "/s") (lit "bundle.pem")) (resolve (lit "/m/a.prom")) refl,
              path_ne (in_dir (lit "/s") (lit "bundle.pem")) (resolve []) refl,
            ),
            tt,
          ),
        ),
      ),
    ),
  ),
)

ensure_cycle-renews_example :
    ((ensure_cycle late keeping (lit "h.example") false running).0 ≡ none)
    × IsRolledOut late keeping
        (lit "h.example")
        false
        (read_current_cert (lit "/s") running).1
        (ensure_cycle late keeping (lit "h.example") false running).1
unfolding syscert.Command.Cycle.need read_current_cert syscert.Os.Calls.read_file syscert.Os.call
    lookup syscert.Os.path_eq resolve syscert.Go.Strings.split lit syscert.Go.Filepath.clean_parts
    syscert.Go.Filepath.clean_step syscert.Go.Strings.str_eq syscert.Renewal.due
    syscert.Renewal.inspect syscert.Renewal.inspect_cert syscert.Renewal.window_of
    syscert.Base.Int.◌-ℤ◌ syscert.Base.Int.quot syscert.Renewal.sub_time syscert.Acme.obtain
    syscert.Acme.params syscert.Acme.identifiers syscert.Acme.add_ids syscert.Acme.add_id
    syscert.Store.build syscert.Store.split_leaf_chain syscert.Store.pem_blocks
    syscert.Store.leaf_chain syscert.Store.concat syscert.Store.artifacts
    syscert.Store.assemble_bundle syscert.Store.component syscert.Go.Strings.contains
ensure_cycle-renews_example =
    ensure_cycle-renews late keeping (lit "h.example") false running running issued five_artifacts
      targets_apart outputs_missed refl refl refl
      (record { store = store_archived; group = λ e. cc e; targets = (target-IsOpen, tt) })

abbrev archive_path : FilePath
archive_path = lit "s" ∷ lit "archive" ∷ []

-- A store with two snapshots, of which the second is empty.
abbrev archived : Sys
archived = record running {
  fs =
      (archive_path, directory (owned 0o700))
      ∷ (archive_path ++ (lit "a" ∷ []), directory (owned 0o700))
      ∷ (archive_path ++ (lit "b" ∷ []), directory (owned 0o700))
      ∷ running.fs;
}

snapshot_open :
    CanCopy service_host (lit "/s") (archive_path ++ (lit "b" ∷ [])) artifact_names archived
unfolding lit resolve syscert.Go.Strings.split syscert.Go.Strings.str_eq syscert.Os.path_eq lookup
    syscert.Go.Filepath.clean_parts syscert.Go.Filepath.clean_step syscert.Go.Strings.has_prefix
    syscert.Go.Filepath.last_part
snapshot_open = record {
  clear = record {
    still = record { faults = refl; host = refl };
    free = plain-free archived.fs (refl, (refl, (refl, (refl, (refl, (refl, tt))))));
  };
  there = refl;
  source = (refl, (refl, (refl, (refl, (refl, tt)))));
  slot = (refl, (refl, (refl, (refl, (refl, tt)))));
}

prefix_below :
    (x : Str) → is_prefix archive_path ((archive_path ++ (lit "b" ∷ [])) ++ (x ∷ [])) ≡ true
unfolding lit is_prefix syscert.Go.Strings.str_eq
prefix_below x = refl

archive_beside : All (λ x. is_prefix archive_path (in_dir (lit "/s") x) ≡ false) artifact_names
unfolding lit is_prefix syscert.Go.Strings.str_eq resolve syscert.Go.Strings.split
    syscert.Go.Filepath.clean_parts syscert.Go.Filepath.clean_step
archive_beside = (refl, (refl, (refl, (refl, (refl, tt)))))

archive_files-Snapped_example :
    (u : Sys) × (archive_files (lit "/s") (archive_path ++ (lit "b" ∷ [])) artifact_names archived
      ≡ (ok tt, u))
    × Snapped service_host
        (lit "/s")
        archive_path
        (archive_path ++ (lit "b" ∷ []))
        (λ x. prefix_below x)
        artifact_names
        archived
        u
archive_files-Snapped_example =
    archive_files-Snapped service_host (lit "/s") archive_path (archive_path ++ (lit "b" ∷ []))
      (λ x. prefix_below x) artifact_names archived names-ArePlain archive_beside snapshot_open

prune_archive-latest_example :
    lookup
      (in_dir (lit "/s") (lit "archive") ++ (lit "b" ∷ lit "cert.pem" ∷ []))
      (prune_archive (lit "/s") 1 archived).1.fs
    ≡ lookup (in_dir (lit "/s") (lit "archive") ++ (lit "b" ∷ lit "cert.pem" ∷ [])) archived.fs
unfolding lit resolve syscert.Go.Strings.split syscert.Go.Strings.str_eq
    syscert.Go.Filepath.clean_parts syscert.Go.Filepath.clean_step syscert.Os.Calls.child_dirs
    syscert.Os.Calls.child_name syscert.Go.Sort.sort syscert.Go.Sort.insert_sorted
    syscert.Go.Sort.str_leb syscert.Go.Strings.contains
prune_archive-latest_example =
    prune_archive-latest (lit "/s") 1 (lit "b") (lit "cert.pem" ∷ []) archived (refl, (refl, tt))
      refl

ensure_cycle-delivers_example :
    (ensure_cycle machine plain_config (lit "h.example") false running).0 ≡ none
unfolding syscert.Command.Cycle.need read_current_cert syscert.Os.Calls.read_file syscert.Os.call
    lookup syscert.Os.path_eq resolve syscert.Go.Strings.split lit syscert.Go.Filepath.clean_parts
    syscert.Go.Filepath.clean_step syscert.Go.Strings.str_eq syscert.Renewal.due
    syscert.Renewal.inspect syscert.Renewal.inspect_cert syscert.Renewal.window_of
    syscert.Base.Int.◌-ℤ◌ syscert.Base.Int.quot syscert.Renewal.sub_time
ensure_cycle-delivers_example =
    ensure_cycle-delivers machine plain_config (lit "h.example") false running targets_apart refl
      running-IsClear (target_served, tt)
