-- ===== src/Access/Report.antt =====
-- cmd/syscert/targetaccess.go: what dry-run says of the target directories.
use syscert.Base.{ℕ, length, Option, none, some, List, [], ◌∷◌, ◌++◌, map, ◌==◌, if◌then◌else◌}
use syscert.Go.Strings.{Str, lit, is_empty, split, join_with, trim_right}
use syscert.Os.{Error, Sys}
use syscert.Config.{Config}
use syscert.Systemdpaths.{output_dirs, distribute_dirs, drop_in_content}
use syscert.Access.{probe_dir, target_access_problem, owner_name, check_distribute_targets}

abbrev pad_line : Str → Str → Str
pad_line pad l = if is_empty l then l else pad ++ l

-- Every line that is not empty gets the prefix.
unfoldable pub indent : Str → Str → Str
indent s pad =
    join_with 10 (map (pad_line pad) (split 10 (trim_right (λ c. c == 10) s))) ++ lit "\n"

abbrev sandbox_note : Str
sandbox_note =
    lit "\nUnder the systemd timer the service is sandboxed (ProtectSystem=strict) and can\n"
    ++ (lit "write only what the unit grants, whatever this check saw. Install the grant with\n"
        ++ lit "'sudo syscert systemd-paths --write', or add by hand:\n\n")

module _ (error_text : Error → Str) where
  abbrev dir_report : Str → Option Error → Str
  dir_report d none = lit "  writable " ++ (d ++ lit "\n")
  dir_report d (some e) =
      lit "  BLOCKED  " ++ (d ++ (lit "\n           " ++ (error_text e ++ lit "\n")))

  -- The directories in order, each probed.
  unfoldable pub report_dirs : Str → List Str → Sys → Str × Sys
  report_dirs run_as [] s = ([], s)
  report_dirs run_as (d ∷ ds) s =
      let (r, s') = probe_dir d s in
      let (rest, s'') = report_dirs run_as ds s' in
      (dir_report d (target_access_problem d r run_as) ++ rest, s'')

  abbrev headed : Config → Str × Sys → Str × Sys
  headed cfg (dirs, s) = (
    lit "\nwritable directories needed:\n"
        ++ (dirs ++ (sandbox_note ++ indent (drop_in_content (distribute_dirs cfg)) (lit "  "))),
    s,
  )

  abbrev report_of : Config → List Str → Sys → Str × Sys
  report_of cfg [] s = ([], s)
  report_of cfg (d ∷ ds) s = headed cfg (report_dirs (owner_name s s.host.euid) (d ∷ ds) s)

  -- Nothing where no directory is needed.
  unfoldable pub report_distribute_targets : Config → Sys → Str × Sys
  unfolding report_dirs
  report_distribute_targets cfg s = report_of cfg (output_dirs cfg) s

  abbrev warning_lines : Str → List Error → Str
  warning_lines cmd [] = []
  warning_lines cmd (e ∷ es) =
      cmd ++ (lit ": warning: " ++ (error_text e ++ (lit "\n" ++ warning_lines cmd es)))

  -- The warnings, and how many there are.
  unfoldable pub warn_distribute_targets : Str → Config → Sys → (Str × ℕ) × Sys
  unfolding check_distribute_targets
  warn_distribute_targets cmd cfg s =
      let (problems, s') = check_distribute_targets cfg s in
      ((warning_lines cmd problems, length problems), s')
