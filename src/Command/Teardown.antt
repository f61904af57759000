-- ===== src/Command/Teardown.antt =====
-- cmd/syscert/dryrun.go and cmd/syscert/destroy.go: the commands that issue nothing.
use syscert.Base.{
  ℕ, ◌≡◌, refl, ap, ◌∙◌, Bool, true, false, not, ◌&&◌, ◌||◌, List, [], ◌∷◌, ◌++◌, if◌then◌else◌,
}
use syscert.Go.Strings.{Str, lit}
use syscert.Go.Filepath.{FilePath, resolve}
use syscert.Os.{Result, ok, err, Sys, Exec, lookup}
use syscert.Config.{Config, is_internal_ca}
use syscert.Validate.{Problem}
use syscert.Acme.{dry_run}
use syscert.Access.Report.{report_distribute_targets}
use syscert.Store.Disk.{wipe, wipe_certs}
use syscert.Store.Files.{wipe_certs-accounts}
use syscert.Trust.{Manager, new_manager, remove_managed}
use syscert.Command.{
  Runtime, Args, Program, load_config, load_and_check, after_env, eab_hmac, load_env_files,
  exit_code, confirm,
}

-- The beginning of `dry-run`, which has no store guard.
abbrev pub dry_checked : Runtime → Bool → Result (Config × Str × List Problem) × Sys → ℕ × Sys
dry_checked w config_only (err e, s) = (2, s)
dry_checked w config_only (ok (cfg, subject, p ∷ ps), s) = (1, s)
dry_checked w config_only (ok (cfg, subject, []), s) =
    let probed = (report_distribute_targets w.error_text cfg s).1 in
    if config_only
    then (0, probed)
    else exit_code (dry_run w.obtainer cfg subject (eab_hmac w) probed)

unfoldable pub cmd_dry_run : Runtime → Args → Bool → Program
unfolding load_and_check load_env_files eab_hmac
cmd_dry_run w a config_only s =
    if not a.parsed
    then (2, s)
    else after_env (λ v t. dry_checked v config_only (load_and_check v a.config_path t)) w
        (load_env_files w a.env_files s)

-- The anchors, where the trust store was found. A failure is a note.
abbrev pub untrust_found : Result Manager × Sys → Sys
untrust_found (err e, s) = s
untrust_found (ok mgr, s) = (remove_managed mgr.anchor_dir mgr.update s).2

-- `run` is how a command that refreshes the store is run.
abbrev pub untrusted : (Str → Exec (Unit {0})) → Bool → Sys → Sys
untrusted run false s = s
untrusted run true s = untrust_found (new_manager run s)

-- The end of `destroy`: the anchors go only with the account, and their failure is a note.
abbrev pub destroyed :
    (Str → Exec (Unit {0})) → Config → Args → Bool → Str → ℕ × Result (Unit {0}) × Sys → ℕ × Sys
destroyed run a_cfg a keep_account line (n, err e, s) = (1, s)
destroyed run cfg a keep_account line (n, ok u, s) = (
  0,
  untrusted run
      ((not keep_account && is_internal_ca cfg.acme.ca) && (a.force || confirm line false)) s,
)

abbrev pub destroy_loaded :
    (Str → Exec (Unit {0})) → Args → Bool → Str → Str → Result Config × Sys → ℕ × Sys
destroy_loaded run a keep_account first second (err e, s) = (2, s)
destroy_loaded run a keep_account first second (ok cfg, s) =
    if not (confirm first a.force)
    then (0, s)
    else destroyed run cfg a keep_account second
        ((if keep_account then wipe_certs cfg.store.path else wipe cfg.store.path) s)

-- The two lines are the answers to its two questions.
unfoldable pub cmd_destroy : Runtime → (Str → Exec (Unit {0})) → Args → Bool → Str → Str → Program
unfolding load_config confirm
cmd_destroy w run a keep_account first second s =
    if not a.parsed
    then (2, s)
    else destroy_loaded run a keep_account first second (load_config w a.config_path s)

-- `destroy --keep-account`, its flags parsed and its config loaded, leaves every file of the ACME
-- accounts of its store as it was after the
-- config was loaded, whatever is answered and whatever calls fail.
pub cmd_destroy-accounts :
    (w : Runtime) (run : Str → Exec (Unit {0})) (a : Args) (first second : Str) (rest : FilePath)
    (cfg : Config) (s t : Sys)
    → load_config w a.config_path s ≡ (ok cfg, t)
    → let q = resolve cfg.store.path ++ (lit "accounts" ∷ rest) in
      a.parsed ≡ true → lookup q (cmd_destroy w run a true first second s).1.fs ≡ lookup q t.fs
unfolding cmd_destroy
cmd_destroy-accounts w run a first second rest cfg s t loaded parsed =
    rw (parsed, loaded) (answered (confirm first a.force))
  where
    wiped : (r : ℕ × Result (Unit {0}) × Sys) → (destroyed run cfg a true second r).1 ≡ r.2
    wiped (n, err e, u) = refl
    wiped (n, ok v, u) = refl

    answered :
        (b : Bool)
        → lookup
            (resolve cfg.store.path ++ (lit "accounts" ∷ rest))
            (if not b
              then (0, t)
              else destroyed run cfg a true second (wipe_certs cfg.store.path t)).1.fs
          ≡ lookup (resolve cfg.store.path ++ (lit "accounts" ∷ rest)) t.fs
    answered false = refl
    answered true =
        ap (λ u. lookup (resolve cfg.store.path ++ (lit "accounts" ∷ rest)) u.fs)
          (wiped (wipe_certs cfg.store.path t))
        ∙ wipe_certs-accounts cfg.store.path rest t
