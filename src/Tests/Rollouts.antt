-- ===== src/Tests/Rollouts.antt =====
-- Examples of what commands leave on the disk.
use syscert.Base.{refl, false, List, [], ◌∷◌, All}
use syscert.Go.Strings.{lit, str_eq}
use syscert.Go.Filepath.{resolve, in_dir}
use syscert.Os.{directory, Sys, ok, path_eq}
use syscert.Os.Calls.{mkdir_all}
use syscert.Os.Laws.{path_ne}
use syscert.Config.{Config}
use syscert.Store.Disk
use syscert.Store.{Artifact}
use syscert.Store.Written.{Stored, write-Stored}
use syscert.Distribute.{run}
use syscert.Distribute.Targets.{AreTargets, Received, run-Received}
use syscert.Acme.{params}
use syscert.Command.{provision}
use syscert.Command.Void.{void_reissue}
use syscert.Command.Provision.{IsProvisioned, provision-IsProvisioned}
use syscert.Command.Rollout.{IsRolledOut, void_reissue-IsRolledOut}
use syscert.Command.Cycle.{ensure_cycle}
use syscert.Command.Renewed.{ensure_cycle-IsRolledOut}
use syscert.Store.Disk.{read_current_cert}
use syscert.Tests.{owned, running, cert_target, plain_config}
use syscert.Tests.Runs.{machine, forced}

abbrev two_artifacts : List Artifact
two_artifacts =
    record { name = lit "cert.pem"; content = lit "L"; mode = 0o644 }
    ∷ record { name = lit "privkey.pem"; content = lit "K"; mode = 0o600 }
    ∷ []

abbrev after_write : Sys
after_write = (Disk.write (lit "/s") two_artifacts (record { dir_mode = 0; group = [] }) running).1

write-Stored_example : Stored (lit "/s") two_artifacts after_write
unfolding syscert.Go.Strings.lit syscert.Go.Strings.str_eq syscert.Go.Strings.split
    syscert.Go.Strings.itoa syscert.Go.Filepath.resolve syscert.Go.Filepath.clean_parts
    syscert.Go.Filepath.clean_step syscert.Os.◌>>=◌ syscert.Os.wrapping syscert.Os.Calls.mkdir_all
    syscert.Os.Calls.make_dirs syscert.Os.lookup syscert.Os.path_eq syscert.Os.Calls.chmod
    syscert.Os.Calls.chown syscert.Os.Calls.create_temp syscert.Os.insert syscert.Os.erase
    syscert.Os.Calls.temp_name syscert.Os.Calls.deferring syscert.Os.Calls.write_open
    syscert.Os.Calls.close syscert.Os.call syscert.Os.pure syscert.Os.Calls.remove
    syscert.Os.Calls.rename syscert.Os.Calls.read_file syscert.Atomicfile.write
    syscert.Atomicfile.fill_and_rename syscert.Atomicfile.run_prepare
    syscert.Atomicfile.write_or_close syscert.Store.Disk.write syscert.Store.Disk.chgrp
    syscert.Store.Disk.store_gid syscert.Store.Disk.write_artifacts syscert.Go.Strings.has_prefix
write-Stored_example =
    write-Stored (lit "/s") two_artifacts (record { dir_mode = 0; group = [] }) running after_write
      (refl, (λ e. cc e, tt), (refl, tt, tt)) refl

pub targets_apart : AreTargets (lit "/s") (cert_target ∷ [])
unfolding lit syscert.Go.Strings.has_prefix syscert.Go.Filepath.last_part resolve
    syscert.Go.Strings.split str_eq path_eq
targets_apart = (
  refl,
  (
    path_ne (resolve (lit "/t/x.pem")) (in_dir (lit "/s") (lit "cert.pem")) refl,
    (
      path_ne (resolve (lit "/t/x.pem")) (in_dir (lit "/s") (lit "privkey.pem")) refl,
      (
        path_ne (resolve (lit "/t/x.pem")) (in_dir (lit "/s") (lit "chain.pem")) refl,
        (
          path_ne (resolve (lit "/t/x.pem")) (in_dir (lit "/s") (lit "fullchain.pem")) refl,
          (path_ne (resolve (lit "/t/x.pem")) (in_dir (lit "/s") (lit "bundle.pem")) refl, tt),
        ),
      ),
    ),
  ),
  tt,
  tt,
)

run-Received_example :
    All
      (Received (lit "/s") running (run (lit "/s") (cert_target ∷ []) running).1)
      (cert_target ∷ [])
unfolding syscert.Go.Strings.lit syscert.Go.Strings.str_eq syscert.Go.Strings.split
    syscert.Go.Strings.itoa syscert.Go.Filepath.resolve syscert.Go.Filepath.clean_parts
    syscert.Go.Filepath.clean_step syscert.Os.◌>>=◌ syscert.Os.wrapping syscert.Os.Calls.mkdir_all
    syscert.Os.Calls.make_dirs syscert.Os.lookup syscert.Os.path_eq syscert.Os.Calls.chmod
    syscert.Os.Calls.chown syscert.Os.Calls.create_temp syscert.Os.insert syscert.Os.erase
    syscert.Os.Calls.temp_name syscert.Os.Calls.deferring syscert.Os.Calls.write_open
    syscert.Os.Calls.close syscert.Os.call syscert.Os.pure syscert.Os.Calls.remove
    syscert.Os.Calls.rename syscert.Os.Calls.read_file syscert.Atomicfile.write
    syscert.Atomicfile.fill_and_rename syscert.Atomicfile.run_prepare
    syscert.Atomicfile.write_or_close syscert.Distribute.run syscert.Distribute.one
    syscert.Distribute.deliver syscert.Distribute.parse_mode syscert.Distribute.owner_of
    syscert.Distribute.look_up syscert.Distribute.group_of syscert.Distribute.write_atomic
    syscert.Distribute.artifact_file syscert.Distribute.attempts syscert.Distribute.chown_to
    syscert.Distribute.default_mode syscert.Distribute.explain_write_error
    syscert.Distribute.explained syscert.Distribute.id_text syscert.Distribute.join_errors
    syscert.Distribute.relabel syscert.Distribute.target_mode syscert.Os.Calls.chcon
run-Received_example = run-Received (lit "/s") (cert_target ∷ []) running targets_apart refl

abbrev pub five_artifacts : List Artifact
five_artifacts =
    record { name = lit "cert.pem"; content = lit "L"; mode = 0o644 }
    ∷ record { name = lit "privkey.pem"; content = lit "K"; mode = 0o600 }
    ∷ record { name = lit "chain.pem"; content = lit "I"; mode = 0o644 }
    ∷ record { name = lit "fullchain.pem"; content = lit "LI"; mode = 0o644 }
    ∷ record { name = lit "bundle.pem"; content = lit "L"; mode = 0o644 }
    ∷ []

abbrev after_provision : Sys
after_provision = (provision machine plain_config (lit "h.example") false running).1

provision-IsProvisioned_example :
    IsProvisioned machine plain_config
      (lit "h.example")
      false
      running
      five_artifacts
      after_provision
unfolding syscert.Go.Strings.lit syscert.Go.Strings.str_eq syscert.Go.Strings.split
    syscert.Go.Strings.itoa syscert.Go.Filepath.resolve syscert.Go.Filepath.clean_parts
    syscert.Go.Filepath.clean_step syscert.Os.◌>>=◌ syscert.Os.wrapping syscert.Os.Calls.mkdir_all
    syscert.Os.Calls.make_dirs syscert.Os.lookup syscert.Os.path_eq syscert.Os.Calls.chmod
    syscert.Os.Calls.chown syscert.Os.Calls.create_temp syscert.Os.insert syscert.Os.erase
    syscert.Os.Calls.temp_name syscert.Os.Calls.deferring syscert.Os.Calls.write_open
    syscert.Os.Calls.close syscert.Os.call syscert.Os.pure syscert.Os.Calls.remove
    syscert.Os.Calls.rename syscert.Os.Calls.read_file syscert.Atomicfile.write
    syscert.Atomicfile.fill_and_rename syscert.Atomicfile.run_prepare
    syscert.Atomicfile.write_or_close syscert.Store.Disk.write syscert.Store.Disk.chgrp
    syscert.Store.Disk.store_gid syscert.Store.Disk.write_artifacts syscert.Command.provision
    syscert.Acme.obtain syscert.Acme.params syscert.Acme.identifiers syscert.Acme.add_ids
    syscert.Acme.add_id syscert.Store.build syscert.Store.split_leaf_chain syscert.Store.pem_blocks
    syscert.Store.leaf_chain syscert.Store.concat syscert.Store.artifacts
    syscert.Store.assemble_bundle syscert.Store.component syscert.Store.Disk.archive
    syscert.Go.Strings.contains syscert.Config.parsed_dir_mode
provision-IsProvisioned_example =
    provision-IsProvisioned machine plain_config (lit "h.example") false five_artifacts running
      after_provision refl

void_reissue-IsRolledOut_example :
    IsRolledOut machine plain_config
      (lit "h.example")
      false
      running
      (void_reissue machine forced plain_config (lit "h.example") (ok tt, running)).1
unfolding syscert.Go.Strings.lit syscert.Go.Strings.str_eq syscert.Go.Strings.split
    syscert.Go.Strings.itoa syscert.Go.Filepath.resolve syscert.Go.Filepath.clean_parts
    syscert.Go.Filepath.clean_step syscert.Os.◌>>=◌ syscert.Os.wrapping syscert.Os.Calls.mkdir_all
    syscert.Os.Calls.make_dirs syscert.Os.lookup syscert.Os.path_eq syscert.Os.Calls.chmod
    syscert.Os.Calls.chown syscert.Os.Calls.create_temp syscert.Os.insert syscert.Os.erase
    syscert.Os.Calls.temp_name syscert.Os.Calls.deferring syscert.Os.Calls.write_open
    syscert.Os.Calls.close syscert.Os.call syscert.Os.pure syscert.Os.Calls.remove
    syscert.Os.Calls.rename syscert.Os.Calls.read_file syscert.Atomicfile.write
    syscert.Atomicfile.fill_and_rename syscert.Atomicfile.run_prepare
    syscert.Atomicfile.write_or_close syscert.Store.Disk.write syscert.Store.Disk.chgrp
    syscert.Store.Disk.store_gid syscert.Store.Disk.write_artifacts syscert.Command.provision
    syscert.Acme.obtain syscert.Acme.params syscert.Acme.identifiers syscert.Acme.add_ids
    syscert.Acme.add_id syscert.Store.build syscert.Store.split_leaf_chain syscert.Store.pem_blocks
    syscert.Store.leaf_chain syscert.Store.concat syscert.Store.artifacts
    syscert.Store.assemble_bundle syscert.Store.component syscert.Store.Disk.archive
    syscert.Go.Strings.contains syscert.Config.parsed_dir_mode syscert.Distribute.run
    syscert.Distribute.one syscert.Distribute.deliver syscert.Distribute.parse_mode
    syscert.Distribute.owner_of syscert.Distribute.look_up syscert.Distribute.group_of
    syscert.Distribute.write_atomic syscert.Distribute.artifact_file syscert.Distribute.attempts
    syscert.Distribute.chown_to syscert.Distribute.default_mode
    syscert.Distribute.explain_write_error syscert.Distribute.explained syscert.Distribute.id_text
    syscert.Distribute.join_errors syscert.Distribute.relabel syscert.Distribute.target_mode
    syscert.Os.Calls.chcon
void_reissue-IsRolledOut_example =
    void_reissue-IsRolledOut machine forced plain_config (lit "h.example") (ok tt) running
      targets_apart refl

-- The store is there, and nothing is in it yet.
abbrev fresh_host : Sys
fresh_host = record running {
  fs = ((lit "s" ∷ []), directory (owned 0o700)) ∷ ((lit "t" ∷ []), directory (owned 0o755)) ∷ [];
}

ensure_cycle-IsRolledOut_example :
    IsRolledOut machine plain_config
      (lit "h.example")
      false
      (read_current_cert (lit "/s") fresh_host).1
      (ensure_cycle machine plain_config (lit "h.example") false fresh_host).1
unfolding syscert.Go.Strings.lit syscert.Go.Strings.str_eq syscert.Go.Strings.split
    syscert.Go.Strings.itoa syscert.Go.Filepath.resolve syscert.Go.Filepath.clean_parts
    syscert.Go.Filepath.clean_step syscert.Os.◌>>=◌ syscert.Os.wrapping syscert.Os.Calls.mkdir_all
    syscert.Os.Calls.make_dirs syscert.Os.lookup syscert.Os.path_eq syscert.Os.Calls.chmod
    syscert.Os.Calls.chown syscert.Os.Calls.create_temp syscert.Os.insert syscert.Os.erase
    syscert.Os.Calls.temp_name syscert.Os.Calls.deferring syscert.Os.Calls.write_open
    syscert.Os.Calls.close syscert.Os.call syscert.Os.pure syscert.Os.Calls.remove
    syscert.Os.Calls.rename syscert.Os.Calls.read_file syscert.Atomicfile.write
    syscert.Atomicfile.fill_and_rename syscert.Atomicfile.run_prepare
    syscert.Atomicfile.write_or_close syscert.Store.Disk.write syscert.Store.Disk.chgrp
    syscert.Store.Disk.store_gid syscert.Store.Disk.write_artifacts syscert.Command.provision
    syscert.Acme.obtain syscert.Acme.params syscert.Acme.identifiers syscert.Acme.add_ids
    syscert.Acme.add_id syscert.Store.build syscert.Store.split_leaf_chain syscert.Store.pem_blocks
    syscert.Store.leaf_chain syscert.Store.concat syscert.Store.artifacts
    syscert.Store.assemble_bundle syscert.Store.component syscert.Store.Disk.archive
    syscert.Go.Strings.contains syscert.Config.parsed_dir_mode syscert.Distribute.run
    syscert.Distribute.one syscert.Distribute.deliver syscert.Distribute.parse_mode
    syscert.Distribute.owner_of syscert.Distribute.look_up syscert.Distribute.group_of
    syscert.Distribute.write_atomic syscert.Distribute.artifact_file syscert.Distribute.attempts
    syscert.Distribute.chown_to syscert.Distribute.default_mode
    syscert.Distribute.explain_write_error syscert.Distribute.explained syscert.Distribute.id_text
    syscert.Distribute.join_errors syscert.Distribute.relabel syscert.Distribute.target_mode
    syscert.Os.Calls.chcon syscert.Command.Cycle.ensure_cycle syscert.Command.Cycle.need
    syscert.Store.Disk.read_current_cert syscert.Command.Cycle.deliver_and_observe
    syscert.Go.Strings.has_prefix syscert.Go.Filepath.last_part
ensure_cycle-IsRolledOut_example =
    ensure_cycle-IsRolledOut machine plain_config (lit "h.example") false fresh_host targets_apart
      (
        (
          (
            refl,
            (
              refl,
              refl,
              path_ne (resolve (lit "/t/x.pem")) (resolve (lit "/m/a.prom")) refl,
              path_ne (resolve (lit "/t/x.pem")) (resolve []) refl,
            ),
          ),
          tt,
        ),
        (
          (
            refl,
            refl,
            path_ne (in_dir (lit "/s") (lit "cert.pem")) (resolve (lit "/m/a.prom")) refl,
            path_ne (in_dir (lit "/s") (lit "cert.pem")) (resolve []) refl,
          ),
          (
            (
              refl,
              refl,
              path_ne (in_dir (lit "/s") (lit "privkey.pem")) (resolve (lit "/m/a.prom")) refl,
              path_ne (in_dir (lit "/s") (lit "privkey.pem")) (resolve []) refl,
            ),
            (
              (
                refl,
                refl,
                path_ne (in_dir (lit "/s") (lit "chain.pem")) (resolve (lit "/m/a.prom")) refl,
                path_ne (in_dir (lit "/s") (lit "chain.pem")) (resolve []) refl,
              ),
              (
                (
                  refl,
                  refl,
                  path_ne (in_dir (lit "/s") (lit "fullchain.pem")) (resolve (lit "/m/a.prom"))
                      refl,
                  path_ne (in_dir (lit "/s") (lit "fullchain.pem")) (resolve []) refl,
                ),
                (
                  (
                    refl,
                    refl,
                    path_ne (in_dir (lit "/s") (lit "bundle.pem")) (resolve (lit "/m/a.prom")) refl,
                    path_ne (in_dir (lit "/s") (lit "bundle.pem")) (resolve []) refl,
                  ),
                  tt,
                ),
              ),
            ),
          ),
        ),
      )
      refl refl
