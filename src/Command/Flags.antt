-- ===== src/Command/Flags.antt =====
-- cmd/syscert/common.go: the flags that the commands share, and what they print of the config.
use syscert.Base.{
  ◌≡◌, refl, sym, ◌∙◌, Bool, true, false, not, ◌&&◌, List, [], ◌∷◌, ◌++◌, append_assoc, append-nil,
  length, if◌then◌else◌,
}
use Prim.Native.String.{String}
use syscert.Go.Strings.{Str, lit, is_empty, str_eq, join_with, itoa}
use syscert.Config.{Config}
use syscert.Envfile.{Kv}
use syscert.Validate.{Problem}
use syscert.Command.{Args, getenv}
use syscert.Command.Report.{pad_to}

-- One flag of a command line, in the order given. That it is one, and has a value, is what the flag
-- package finds out.
pub data Flag : Type 0 where
  config_flag env_file_flag interval_flag : Str → Flag
  staging_flag force_flag : Bool → Flag

unfoldable pub default_config_path : Str
default_config_path = lit "/etc/syscert/syscert.toml"

-- The path of the config that no flag names.
unfoldable pub config_default : List Kv → Str
unfolding getenv
config_default env =
    let p = getenv (lit "SYSCERT_CONFIG") env in if is_empty p then default_config_path else p

-- The value behind --env-file.
unfoldable pub env_files_set : Str → List Str → List Str
env_files_set v files = files ++ (v ∷ [])

unfoldable pub env_files_string : List Str → Str
env_files_string files = join_with 44 files

-- Before the command line is read.
unfoldable pub unset : List Kv → Args
unfolding config_default getenv
unset env = record {
  parsed = true;
  env_files = [];
  config_path = config_default env;
  staging = false;
  force = false;
  interval = getenv (lit "SYSCERT_INTERVAL") env;
}

unfoldable pub set_flag : Flag → Args → Args
unfolding env_files_set
set_flag (config_flag p) a = record a { config_path = p }
set_flag (env_file_flag p) a = record a { env_files = env_files_set p a.env_files }
set_flag (interval_flag d) a = record a { interval = d }
set_flag (staging_flag b) a = record a { staging = b }
set_flag (force_flag b) a = record a { force = b }

-- fs.Parse on a command line that it accepts.
unfoldable pub set_flags : List Flag → Args → Args
unfolding set_flag
set_flags [] a = a
set_flags (f ∷ fs) a = set_flags fs (set_flag f a)

unfoldable pub args_of : List Kv → List Flag → Args
unfolding unset set_flags
args_of env flags = set_flags flags (unset env)

-- What the usage says of one flag; `placeholder` and `usage` are those of flag.UnquoteUsage.
pub record FlagInfo : Type 0 where
  pub name : Str
  pub placeholder : Str
  pub usage : Str
  pub def_value : Str

module _ (quote : Str → Str) where
  unfoldable pub flag_line : FlagInfo → Str
  flag_line f =
      let arg =
        lit "--" ++ (f.name ++ (if is_empty f.placeholder then [] else lit " " ++ f.placeholder)) in
      let def =
        if not (is_empty f.def_value) && not (str_eq f.def_value (lit "false"))
        then lit " (default " ++ (quote f.def_value ++ lit ")")
        else [] in
      lit "  " ++ (pad_to 22 arg ++ (lit " " ++ (f.usage ++ (def ++ lit "\n"))))

  unfoldable pub flag_lines : List FlagInfo → Str
  unfolding flag_line
  flag_lines [] = []
  flag_lines (f ∷ fs) = flag_line f ++ flag_lines fs

  -- The flags are those of fs.VisitAll, in its order.
  unfoldable pub usage_text : Str → List FlagInfo → Str
  unfolding flag_lines
  usage_text name flags = lit "usage: syscert " ++ (name ++ (lit " [flags]\n" ++ flag_lines flags))

-- `sprintf` makes the message of a problem.
unfoldable pub problem_lines : (String → List Str → Str) → List Problem → Str
problem_lines sprintf [] = []
problem_lines sprintf (p ∷ ps) =
    lit "  - "
    ++ (p.field
        ++ (lit ": " ++ (sprintf p.message p.values ++ (lit "\n" ++ problem_lines sprintf ps))))

unfoldable pub print_problems : (String → List Str → Str) → List Problem → Str
unfolding problem_lines
print_problems sprintf ps =
    lit "FAIL: " ++ (itoa (length ps) ++ (lit " config problem(s)\n" ++ problem_lines sprintf ps))

unfoldable pub note_connection_trust : Config → Str
note_connection_trust cfg =
    if is_empty cfg.acme.ca_bundle
    then []
    else lit "warning: trusting the ACME server via ca_bundle "
      ++ (cfg.acme.ca_bundle
          ++ lit
              " for this connection only (not the system trust store) — run 'syscert trust install' to trust issued certs host-wide\n")

-- The config paths that the flags give.
abbrev pub config_values : List Flag → List Str
config_values [] = []
config_values (config_flag p ∷ fs) = p ∷ config_values fs
config_values (_ ∷ fs) = config_values fs

abbrev pub env_file_values : List Flag → List Str
env_file_values [] = []
env_file_values (env_file_flag p ∷ fs) = p ∷ env_file_values fs
env_file_values (_ ∷ fs) = env_file_values fs

-- The last entry, or what there is without one.
abbrev pub last_or : Str → List Str → Str
last_or d [] = d
last_or d (p ∷ ps) = last_or p ps

set_flags-config_path :
    (fs : List Flag) (a : Args)
    → (set_flags fs a).config_path ≡ last_or a.config_path (config_values fs)
unfolding set_flags
set_flags-config_path [] a = refl
set_flags-config_path (config_flag p ∷ fs) a = set_flags-config_path fs (set_flag (config_flag p) a)
set_flags-config_path (env_file_flag p ∷ fs) a =
    set_flags-config_path fs (set_flag (env_file_flag p) a)
set_flags-config_path (interval_flag p ∷ fs) a =
    set_flags-config_path fs (set_flag (interval_flag p) a)
set_flags-config_path (staging_flag p ∷ fs) a =
    set_flags-config_path fs (set_flag (staging_flag p) a)
set_flags-config_path (force_flag p ∷ fs) a = set_flags-config_path fs (set_flag (force_flag p) a)

set_flags-env_files :
    (fs : List Flag) (a : Args) → (set_flags fs a).env_files ≡ a.env_files ++ env_file_values fs
unfolding set_flags
set_flags-env_files [] a = sym (append-nil a.env_files)
set_flags-env_files (config_flag p ∷ fs) a = set_flags-env_files fs (set_flag (config_flag p) a)
set_flags-env_files (env_file_flag p ∷ fs) a =
    set_flags-env_files fs (set_flag (env_file_flag p) a)
    ∙ append_assoc a.env_files (p ∷ []) (env_file_values fs)
set_flags-env_files (interval_flag p ∷ fs) a = set_flags-env_files fs (set_flag (interval_flag p) a)
set_flags-env_files (staging_flag p ∷ fs) a = set_flags-env_files fs (set_flag (staging_flag p) a)
set_flags-env_files (force_flag p ∷ fs) a = set_flags-env_files fs (set_flag (force_flag p) a)

-- The config is that of the last --config; without one, that of SYSCERT_CONFIG if it is set to
-- something, and else the built-in path. The environment files are those of all --env-file flags, in
-- order.
args_of_lem :
    (env : List Kv) (flags : List Flag)
    → ((args_of env flags).config_path ≡ last_or (config_default env) (config_values flags))
      × ((args_of env flags).env_files ≡ env_file_values flags)
unfolding args_of
args_of_lem env flags =
    (set_flags-config_path flags (unset env), set_flags-env_files flags (unset env))
