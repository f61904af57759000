-- ===== src/Command.antt =====
-- cmd/syscert: the commands that change the host, as programs from a host to an exit code and a
-- host. The printed text is not part of them. What the commands take from outside is a `Runtime`: the
-- TOML and X.509 libraries, the CA behind the Obtainer interface, and the clock as it is read at a state.
pub mod Void
pub mod Cycle
pub mod Exit
pub mod Provision
pub mod Progress
pub mod Success
pub mod Rollout
pub mod Renewed
pub mod Teardown
pub mod Grants
pub mod Anchors
pub mod Report
pub mod Dispatch
pub mod Flags
use syscert.Base.{
  ℕ, ◌+◌, Bool, true, false, not, ◌||◌, ◌&&◌, leb, Option, none, some, List, [], ◌∷◌, ◌++◌,
  if◌then◌else◌,
}
use syscert.Base.Int.{ℤ}
use syscert.Go.Strings.{Str, lit, str_eq, trim_space}
use syscert.Os.{Error, Result, ok, err, text, Sys, Exec, pure, raise, ◌>>=◌, ◌>>◌}
use syscert.Config.{Config, apply_defaults, parsed_dir_mode}
use syscert.Validate
use syscert.Validate.{Problem, validate}
use syscert.Resolve.{fqdn}
use syscert.Renewal.{Parsers, due}
use syscert.Envfile.{Kv, find, load_files, apply}
use syscert.Store.Disk
use syscert.Store.{Decoder, Artifact, Material, build}
use syscert.Store.Disk.{archive, read_current_cert}
use syscert.Acme.{Obtained, Obtainer, obtain}
use syscert.Distribute.{run}
use syscert.Access.{check_store_access}
use syscert.Observe.{Snapshot}

pub record Runtime : Type 0 where
  pub decode_file : Str → Exec Config
  pub checks : Validate.Host
  pub hostname : Result Str
  pub parsers : Parsers
  pub decoder : Decoder
  pub obtainer : Obtainer
  pub error_text : Error → Str
  pub scan : Str → List Str × Option Error
  pub settable : Kv → Bool
  pub environ : List Kv
  pub clock : Sys → ℤ
  pub stamp : Sys → Str
  pub version : Str
  pub marshal : Snapshot → Result Str

-- What the command line says.
pub record Args : Type 0 where
  pub parsed : Bool
  pub env_files : List Str
  pub config_path : Str
  pub staging : Bool
  pub force : Bool
  pub interval : Str

abbrev pub Program : Type 0
Program = Sys → ℕ × Sys

unfoldable pub load_config : Runtime → Str → Exec Config
load_config w path = do cfg ← w.decode_file path; pure (apply_defaults cfg)

-- os.Getenv
unfoldable pub getenv : Str → List Kv → Str
unfolding find
getenv k env = elim (find k env) [ none ↦ [] | some v ↦ v ]

unfoldable pub eab_hmac : Runtime → Str
unfolding getenv
eab_hmac w = getenv (lit "SYSCERT_EAB_HMAC") w.environ

abbrev pub in_env : Runtime → List Kv → Runtime
in_env w env = record w { environ = env }

abbrev env_set : List Str × List Kv × Bool → Result (List Kv)
env_set (names, env, true) = ok env
env_set (names, env, false) = err (text "setenv" [])

abbrev env_loaded : Runtime → Result (List (List Kv)) × Sys → Result (List Kv) × Sys
env_loaded w (err e, s) = (err e, s)
env_loaded w (ok files, s) = (env_set (apply w.settable w.environ files), s)

-- The environment after --env-file; with no path the files are not looked at.
unfoldable pub load_env_files : Runtime → List Str → Exec (List Kv)
unfolding load_files apply
load_env_files w [] s = (ok w.environ, s)
load_env_files w (p ∷ ps) s = env_loaded w (load_files w.scan (p ∷ ps) s)

-- The text of the error is not kept.
unfoldable pub subject_problems : Result Str → List Problem
subject_problems (ok subject) = []
subject_problems (err e) = record { field = lit "cert.hostname"; message = "%v"; values = [] } ∷ []

abbrev pub or_empty : Result Str → Str
or_empty (ok subject) = subject
or_empty (err e) = []

-- The rest of loadAndCheck after the load.
abbrev pub load_and_check_of :
    Runtime → Result Config × Sys → Result (Config × Str × List Problem) × Sys
load_and_check_of w (err e, s) = (err e, s)
load_and_check_of w (ok cfg, s) =
    let subject = fqdn cfg.cert.hostname w.hostname in
    (ok (cfg, or_empty subject, subject_problems subject ++ validate w.checks cfg), s)

unfoldable pub load_and_check : Runtime → Str → Exec (Config × Str × List Problem)
unfolding load_config subject_problems
load_and_check w path s = load_and_check_of w (load_config w path s)

abbrev pub guarded : Program → Option Error × Sys → ℕ × Sys
guarded body (none, s) = body s
guarded body (some e, s) = (1, s)

abbrev pub checked : (Config → Str → Program) → Result (Config × Str × List Problem) × Sys → ℕ × Sys
checked body (err e, s) = (2, s)
checked body (ok (cfg, subject, []), s) =
    guarded (body cfg subject) (check_store_access cfg.store.path s)
checked body (ok (cfg, subject, p ∷ ps), s) = (1, s)

-- A failure to load the environment files is exit code 2; else the rest runs with what they set.
abbrev pub after_env : (Runtime → Program) → Runtime → Result (List Kv) × Sys → ℕ × Sys
after_env body w (err e, s) = (2, s)
after_env body w (ok env, s) = body (in_env w env) s

-- How `issue`, `renew` and `void` begin: flags, environment files, config, problems, store guard.
unfoldable pub proceed : Runtime → Args → (Runtime → Config → Str → Program) → Program
unfolding load_and_check load_env_files
proceed w a body s =
    if not a.parsed
    then (2, s)
    else after_env (λ v t. checked (body v) (load_and_check v a.config_path t)) w
        (load_env_files w a.env_files s)

-- A step of a pipeline that returns a value and no effect.
abbrev pub lift : {A : Type 0} → Result A → Exec A
lift (ok a) = pure a
lift (err e) = raise e

-- No root is set.
abbrev pub material : Obtained → Material
material res = record {
  certificate = res.certificate;
  private_key = res.private_key;
  issuer_certificate = res.issuer_certificate;
  root = [];
}

unfoldable pub provision : Runtime → Config → Str → Bool → Exec (List Artifact)
unfolding eab_hmac
provision w cfg subject staging = do
  res ← obtain w.obtainer cfg subject staging (eab_hmac w)
  arts ← lift (build w.decoder (material res) cfg.bundle.order)
  (λ s. archive cfg.store.path cfg.store.archive_keep (w.stamp s) s)
  Disk.write cfg.store.path arts
      (record { dir_mode = parsed_dir_mode cfg.store; group = cfg.store.group })
  pure arts

abbrev pub exit_code : {A : Type 0} → Result A × Sys → ℕ × Sys
exit_code (ok a, s) = (0, s)
exit_code (err e, s) = (1, s)

unfoldable pub cmd_issue : Runtime → Args → Program
unfolding proceed provision
cmd_issue w a = proceed w a λ v cfg subject s. exit_code (provision v cfg subject a.staging s)

-- Whether `renew` goes on, given the test of the window.
abbrev pub renew_due : Program → Result Bool → Program
renew_due go (err e) s = (1, s)
renew_due go (ok false) s = (0, s)
renew_due go (ok true) s = go s

abbrev pub renew_read : Runtime → Args → Config → Str → Result Str × Sys → ℕ × Sys
renew_read w a cfg subject (err e, s) = (1, s)
renew_read w a cfg subject (ok cert_pem, s) =
    renew_due (λ t. exit_code (provision w cfg subject a.staging t))
      (if a.force then ok true else due w.parsers cert_pem cfg.renewal.renew_before (w.clock s)) s

unfoldable pub cmd_renew : Runtime → Args → Program
unfolding proceed provision
cmd_renew w a =
    proceed w a λ v cfg subject s. renew_read v a cfg subject (read_current_cert cfg.store.path s)

-- strings.ToLower on ASCII.
unfoldable pub to_lower : Str → Str
to_lower [] = []
to_lower (c ∷ s) = (if leb 65 c && leb c 90 then c + 32 else c) ∷ to_lower s

-- `line` is what was read from the terminal.
unfoldable pub confirm : Str → Bool → Bool
unfolding to_lower
confirm line force =
    force
    || (let answer = to_lower (trim_space line) in
        str_eq answer (lit "y") || str_eq answer (lit "yes"))

unfoldable pub cmd_distribute : Runtime → Args → Program
unfolding load_config
cmd_distribute w a s = if not a.parsed then (2, s) else loaded (load_config w a.config_path s)
  where
    loaded : Result Config × Sys → ℕ × Sys
    loaded (err e, s) = (2, s)
    loaded (ok cfg, s) =
        guarded (λ t. exit_code (run cfg.store.path cfg.distribute t))
          (check_store_access cfg.store.path s)
