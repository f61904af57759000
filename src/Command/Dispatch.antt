-- ===== src/Command/Dispatch.antt =====
-- cmd/syscert/main.go: the choice of the command, and the version that is reported.
use syscert.Base.{
  ℕ, Bool, false, not, ◌||◌, ◌&&◌, ltb, Option, none, some, List, [], ◌∷◌, ◌++◌, length, take,
  if◌then◌else◌,
}
use syscert.Go.Strings.{Str, lit, str_eq, is_empty, has_prefix}
use syscert.Os.{Sys}
use syscert.Interval.{Round}
use syscert.Command.{Runtime, Args, cmd_issue, cmd_renew, cmd_distribute}
use syscert.Command.Void.{cmd_void}
use syscert.Command.Cycle.{cmd_ensure}
use syscert.Command.Teardown.{cmd_dry_run, cmd_destroy}
use syscert.Command.Grants.{cmd_systemd_paths}
use syscert.Command.Anchors.{Tools, cmd_trust}
use syscert.Command.Report.{Clocks, cmd_status}

-- What flag.Parse makes of the rest of a line, with the flags that only one command has.
pub record Parsed : Type 0 where
  pub args : Args
  pub config_only : Bool
  pub keep_account : Bool
  pub write : Bool
  pub dirs_only : Bool
  pub ca_file : Str

-- What reaches a run from outside: the signals, and the lines typed at its two prompts.
pub record Session : Type 0 where
  pub flags : Str → List Str → Parsed
  pub rounds : List Round
  pub first_line : Str
  pub second_line : Str

abbrev returning : ℕ × Sys → Option ℕ × Sys
returning (code, s) = (some code, s)

module _ (w : Runtime) (tools : Tools) (clocks : Clocks) (session : Session) where
  -- The commands by name; `none` where there is no such command.
  unfoldable pub command : Str → List Str → Option (Sys → ℕ × Sys)
  command cmd rest =
      let p = session.flags cmd rest in
      if str_eq cmd (lit "issue")
      then some (cmd_issue w p.args)
      else if str_eq cmd (lit "renew")
      then some (cmd_renew w p.args)
      else if str_eq cmd (lit "distribute")
      then some (cmd_distribute w p.args)
      else if str_eq cmd (lit "dry-run")
      then some (cmd_dry_run w p.args p.config_only)
      else if str_eq cmd (lit "trust")
      then some
          (cmd_trust w tools (λ line. let q = session.flags cmd line in (q.args, q.ca_file)) rest)
      else if str_eq cmd (lit "void")
      then some (cmd_void w p.args session.first_line)
      else if str_eq cmd (lit "destroy")
      then some (
          cmd_destroy w tools.run_command p.args p.keep_account session.first_line
            session.second_line)
      else if str_eq cmd (lit "status")
      then some (cmd_status w clocks p.args)
      else if str_eq cmd (lit "systemd-paths")
      then some (cmd_systemd_paths w p.args p.write p.dirs_only)
      else none

  abbrev is_info : Str → Bool
  is_info cmd =
      str_eq cmd (lit "-h")
      || str_eq cmd (lit "--help")
      || str_eq cmd (lit "help")
      || str_eq cmd (lit "version")
      || str_eq cmd (lit "--version")

  abbrev ensure : List Str → Sys → Option ℕ × Sys
  ensure line = cmd_ensure w (session.flags [] line).args session.rounds

  abbrev chosen : List Str → Str → Option (Sys → ℕ × Sys) → Sys → Option ℕ × Sys
  chosen line cmd none s = if has_prefix cmd (lit "-") then ensure line s else (some 2, s)
  chosen line cmd (some program) s = returning (program s)

  unfoldable pub run : List Str → Sys → Option ℕ × Sys
  unfolding command
  run [] s = ensure [] s
  run (cmd ∷ rest) s =
      if is_info cmd then (some 0, s) else chosen (cmd ∷ rest) cmd (command cmd rest) s

-- debug.BuildInfo: the settings in order, and the version of the main module.
pub record Build : Type 0 where
  pub settings : List (Str × Str)
  pub main_version : Str

-- The revision, whether the tree was dirty, and the build date, after the loop over the settings.
unfoldable pub read_settings : List (Str × Str) → Str × Bool × Str → Str × Bool × Str
read_settings [] found = found
read_settings ((key, value) ∷ settings) (rev, dirty, built) = read_settings settings (
    if str_eq key (lit "vcs.revision")
    then (value, dirty, built)
    else if str_eq key (lit "vcs.modified")
    then (rev, str_eq value (lit "true"), built)
    else if str_eq key (lit "vcs.time") && is_empty built
    then (rev, dirty, value)
    else (rev, dirty, built))

unfoldable pub dev_version : Str → Bool → Str
dev_version rev dirty =
    lit "dev+"
    ++ ((if ltb 12 (length rev) then take 12 rev else rev) ++ (if dirty then lit "-dirty" else []))

abbrev resolved_version : Str → Build → Str → Bool → Str
resolved_version version info rev dirty =
    if not (str_eq version (lit "dev"))
    then version
    else if not (is_empty info.main_version) && not (str_eq info.main_version (lit "(devel)"))
    then info.main_version
    else if is_empty rev
    then version
    else dev_version rev dirty

-- `version` and `date` are what the linker stamped; `none` where nothing was embedded.
unfoldable pub build_info : Str → Str → Option Build → Str × Str
unfolding read_settings dev_version
build_info version date none = (version, date)
build_info version date (some info) =
    let (rev, dirty, built) = read_settings info.settings ([], false, date) in
    (resolved_version version info rev dirty, built)
