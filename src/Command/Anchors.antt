-- ===== src/Command/Anchors.antt =====
-- cmd/syscert/trust.go: the commands on the system's trust store.
use syscert.Base.{ℕ, Bool, not, ◌||◌, ◌==◌, List, [], ◌∷◌, if◌then◌else◌}
use syscert.Go.Strings.{Str, lit, str_eq, is_empty}
use syscert.Go.Filepath.{resolve}
use syscert.Os.{Result, ok, err, Sys, Exec, ◌>>=◌}
use syscert.Os.Calls.{read_file}
use syscert.Config.{Config, is_public_ca}
use syscert.Trust.{BlockDecoder, CaParser, Manager, new_manager, ca_name, install, remove_managed}
use syscert.Command.{Runtime, Args, Program, load_config, lift, exit_code}

-- The X.509 library and how a command is run.
pub record Tools : Type 0 where
  pub decode_block : BlockDecoder
  pub parse_ca : CaParser
  pub to_lower : Str → Str
  pub run_command : Str → Exec (Unit {0})

-- From the read of the source on; any error is exit code 1.
unfoldable pub install_from : Tools → Str → Exec (Unit {0})
install_from tools source = do
  ca_pem ← read_file (resolve source)
  name ← lift (ca_name tools.decode_block tools.parse_ca tools.to_lower ca_pem)
  mgr ← new_manager tools.run_command
  install mgr.anchor_dir mgr.update name ca_pem

unfoldable pub install_source : Tools → Config → Str → Program
unfolding install_from
install_source tools cfg source s =
    if not (is_empty source)
    then exit_code (install_from tools source s)
    else if is_public_ca cfg.acme.ca
    then (0, s)
    else (2, s)

abbrev or_bundle : Str → Str → Str
or_bundle ca_file bundle = if is_empty ca_file then bundle else ca_file

abbrev pub install_loaded : Tools → Str → Result Config × Sys → ℕ × Sys
install_loaded tools ca_file (err e, s) = (2, s)
install_loaded tools ca_file (ok cfg, s) =
    install_source tools cfg (or_bundle ca_file cfg.acme.ca_bundle) s

unfoldable pub cmd_trust_install : Runtime → Tools → Args → Str → Program
unfolding load_config install_source
cmd_trust_install w tools a ca_file s =
    if not a.parsed
    then (2, s)
    else if not (s.host.euid == 0)
    then (1, s)
    else install_loaded tools ca_file (load_config w a.config_path s)

abbrev removed_code : ℕ × Result (Unit {0}) × Sys → ℕ × Sys
removed_code (n, ok u, s) = (0, s)
removed_code (n, err e, s) = (1, s)

abbrev pub remove_found : Result Manager × Sys → ℕ × Sys
remove_found (err e, s) = (1, s)
remove_found (ok mgr, s) = removed_code (remove_managed mgr.anchor_dir mgr.update s)

unfoldable pub cmd_trust_remove : Tools → Bool → Program
cmd_trust_remove tools parsed s =
    if not parsed
    then (2, s)
    else if not (s.host.euid == 0)
    then (1, s)
    else remove_found (new_manager tools.run_command s)

abbrev is_help : Str → Bool
is_help sub = str_eq sub (lit "-h") || str_eq sub (lit "--help") || str_eq sub (lit "help")

-- `flags` is what flag.Parse makes of the rest of the line: the arguments and --ca-file.
unfoldable pub cmd_trust : Runtime → Tools → (List Str → Args × Str) → List Str → Program
unfolding cmd_trust_install cmd_trust_remove
cmd_trust w tools flags [] s = (2, s)
cmd_trust w tools flags (sub ∷ rest) s =
    if str_eq sub (lit "install")
    then cmd_trust_install w tools (flags rest).0 (flags rest).1 s
    else if str_eq sub (lit "remove")
    then cmd_trust_remove tools (flags rest).0.parsed s
    else if is_help sub
    then (0, s)
    else (2, s)
