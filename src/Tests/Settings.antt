-- ===== src/Tests/Settings.antt =====
-- Examples of the settings: the config, its validation, the drop-in, the intervals and the window.
use syscert.Base.{
  ℕ, ◌≡◌, ◌↔◌, refl, false, none, some, List, [], ◌∷◌, ◌++◌, ◌/◌, map, arith, not, ◌&&◌,
  if◌then◌else◌,
}
use syscert.Base.Int.{ℤ, pos, negsuc, ◌-ℤ◌, ◌≤ℤ◌}
use syscert.Go.Strings.{Str, lit, has_byte, split, str_eq, contains}
use syscert.Os.{ok}
use syscert.Validate
use syscert.Validate.{validate}
use syscert.Validate.Rules.{IsAccepted}
use syscert.Validate.Accepted.{validate-eq-nil_iff}
use syscert.Renewal.{Certificate, inspect_cert, status_at, parse_days, atoi}
use syscert.Renewal.Window.{renew_at_auto, parse_days-overflow}
use syscert.Systemdpaths.{
  partition_grant_dirs, unsafe_grant_dir, drop_in_content, header_lines, grant_line,
}
use syscert.Systemdpaths.Safe.{IsSafe}
use syscert.Systemdpaths.Grant.{grantable, refusal, partition_cases, drop_in_lines}
use syscert.Go.Filepath.{resolve}
use syscert.Os.Calls.{stat}
use syscert.Access.{check_store_access, IsOpenTo, check_store_access-none_iff}
use syscert.Observe.{escape_label}
use syscert.Observe.Escape.{read_label, read_label-escape_label}
use syscert.Tests.{plain_config, parsers, leaf, running}

abbrev pub no_files : Validate.Host
no_files = record { stat_ok = λ _. false; parse_ip = λ _. none }

validate-eq-nil_example : (validate no_files plain_config ≡ []) ↔ IsAccepted no_files plain_config
validate-eq-nil_example = validate-eq-nil_iff no_files plain_config

renew_at_auto_example :
    inspect_cert parsers leaf [] (pos 50)
    ≡ ok (status_at parsers leaf (pos (90 / 3)) (pos 50), leaf)
unfolding ◌-ℤ◌
renew_at_auto_example = renew_at_auto parsers leaf 90 (pos 50) (omega arith) refl

parse_days-overflow_example :
    (k : ℕ) × (parse_days parsers (lit "110000d") (lit "110000") ≡ ok (negsuc k))
    × ((cert : Certificate) (now : ℤ)
        → now ≤ℤ cert.not_after
        → (status_at parsers cert (negsuc k) now).due ≡ false)
unfolding atoi lit
parse_days-overflow_example =
    parse_days-overflow parsers (lit "110000d") (lit "110000") 110000 refl (omega arith)
      (omega arith)

abbrev wanted : List Str
wanted = lit "/s" ∷ lit "/etc" ∷ lit "/t/a b" ∷ lit "/etc/tls" ∷ []

partition_example :
    ((partition_grant_dirs wanted (lit "/s")).0 ≡ grantable (lit "/s") wanted)
    × (refusal (lit "/etc") (partition_grant_dirs wanted (lit "/s")).1 ≡ (
        if contains wanted (lit "/etc") && not (str_eq (lit "/etc") (lit "/s"))
        then unsafe_grant_dir (lit "/etc")
        else none))
    × ((unsafe_grant_dir (lit "/etc") ≡ none) ↔ IsSafe (lit "/etc"))
partition_example = partition_cases wanted (lit "/s") (lit "/etc")

drop_in_lines_example :
    split 10 (drop_in_content (partition_grant_dirs wanted (lit "/s")).0)
    ≡ (header_lines ++ map grant_line (partition_grant_dirs wanted (lit "/s")).0) ++ ([] ∷ [])
unfolding lit has_byte
drop_in_lines_example = drop_in_lines wanted (lit "/s") refl

check_store_access-none_example :
    ((check_store_access (lit "/s") running).0 ≡ none)
    ↔ IsOpenTo (stat (resolve (lit "/s")) running)
check_store_access-none_example = check_store_access-none_iff (lit "/s") running

read_label-escape_label_example :
    read_label false (escape_label (lit "a\"b\\") ++ (34 ∷ lit ",x="))
    ≡ (if has_byte 13 (lit "a\"b\\") then none else some (lit "a\"b\\", lit ",x="))
read_label-escape_label_example = read_label-escape_label (lit "a\"b\\") (lit ",x=")
