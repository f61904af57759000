-- ===== src/Tests/Guards.antt =====
-- Examples of the solvers, the account key and the drop-in.
use syscert.Base.{◌≡◌, ◌≢◌, ◌⊎◌, refl, true, false, none, [], ◌∷◌}
use syscert.Go.Strings.{lit, str_eq}
use syscert.Go.Filepath.{resolve}
use syscert.Os.{Sys, ok, path_eq, raise, text, Exec}
use syscert.Os.Calls.{mkdir_all}
use syscert.Config.{Config}
use syscert.Acme.{account_key, account_dir, params}
use syscert.Acme.Key.{account_key-again}
use syscert.Acme.Lego.{Lego, set_solver, set_dns_solver}
use syscert.Acme.Lego.Solvers.{set_solver-IsAccepted}
use syscert.Validate.Accepted.{validate-eq-nil_iff}
use syscert.Command.{Runtime}
use syscert.Command.Grants.{IsInstalled, cmd_systemd_paths, cmd_systemd_paths-installs}
use syscert.Tests.{running, cert_target, plain_config, service_host}
use syscert.Tests.Runs.{machine, forced, knowing}
use syscert.Tests.Settings.{no_files}

abbrev done : Exec (Unit {0})
done s = (ok tt, s)

abbrev solvers : Lego
solvers = record {
  library = knowing;
  to_key_type = λ k. ok k;
  dns_provider = λ name s. (ok name, s);
  set_dns01 = λ _ _. done;
  set_http01 = λ _. done;
  set_tls_alpn01 = λ _. done;
  order = λ ids k p. raise (text "refused" []);
  revoke = λ _. done;
}

set_solver-IsAccepted_example :
    let p = params plain_config (lit "h.example") false none [] in
    (p.directory_url ≢ [])
    × (((plain_config.cert.ip_sans ≡ []) × (set_solver solvers p ≡ set_dns_solver solvers p))
        ⊎ (set_solver solvers p ≡ solvers.set_http01 (lit "80"))
        ⊎ (set_solver solvers p ≡ solvers.set_tls_alpn01 (lit "443")))
unfolding syscert.Validate.validate lit syscert.Go.Strings.contains str_eq
    syscert.Config.is_internal_ca syscert.Go.Strings.parse_octal syscert.Validate.ip_problems
    syscert.Validate.bundle_problems syscert.Validate.targets_problems
    syscert.Validate.target_problems syscert.Go.Filepath.is_abs syscert.Go.Filepath.ext
    syscert.Go.Strings.split
set_solver-IsAccepted_example =
    set_solver-IsAccepted solvers no_files plain_config (lit "h.example") false none []
      ((validate-eq-nil_iff no_files plain_config).0 refl)

abbrev as_root : Sys
as_root = record running { host = record service_host { euid = 0; egid = 0 } }

abbrev granted_config : Config
granted_config = record plain_config {
  distribute = record cert_target { path = lit "/etc/ssl/x.pem" } ∷ [];
  observe = record { metrics_file = []; ansible_facts_file = [] };
}

abbrev granted_machine : Runtime
granted_machine = record machine { decode_file = λ _ s. (ok granted_config, s) }

cmd_systemd_paths-installs_example :
    IsInstalled granted_config as_root
      (cmd_systemd_paths granted_machine forced true false as_root).1
unfolding syscert.Command.load_config syscert.Os.◌>>=◌ syscert.Config.apply_defaults lit
    cmd_systemd_paths syscert.Systemdpaths.partition_grant_dirs syscert.Systemdpaths.distribute_dirs
    syscert.Go.Filepath.dir syscert.Go.Strings.join_with syscert.Go.Strings.split str_eq
    syscert.Go.Strings.contains syscert.Go.Strings.trim mkdir_all syscert.Os.lookup path_eq resolve
    syscert.Os.Calls.write_file syscert.Os.insert
cmd_systemd_paths-installs_example =
    cmd_systemd_paths-installs granted_machine forced granted_config as_root as_root refl refl refl

abbrev with_key : Sys
with_key = (account_key knowing (lit "a" ∷ []) (lit "u") running).1

abbrev with_directory : Sys
with_directory = (mkdir_all (account_dir knowing (lit "a" ∷ []) (lit "u")) 0o700 with_key).1

account_key-again_example :
    (account_key knowing (lit "a" ∷ []) (lit "u") with_key).0 ≡ ok (lit "K", true)
unfolding account_key syscert.Os.◌>>=◌ syscert.Os.wrapping mkdir_all syscert.Os.lookup path_eq
    str_eq lit syscert.Os.Calls.read_file syscert.Os.insert syscert.Os.Calls.write_file
account_key-again_example =
    account_key-again knowing (lit "a" ∷ []) (lit "u") (lit "K") running with_key with_directory
      (λ k. refl) refl refl refl
