-- ===== src/Command/Report.antt =====
-- cmd/syscert/status.go: the report of the current state.
use syscert.Base.{
  ℕ, zero, suc, ◌/◌, ◌%◌, not, ◌&&◌, ltb, List, [], ◌∷◌, ◌++◌, length, if◌then◌else◌,
}
use syscert.Base.Int.{ℤ, pos, negsuc}
use syscert.Go.Strings.{Str, lit, is_empty, itoa}
use syscert.Go.Filepath.{resolve}
use syscert.Os.{Result, ok, err, Node, Sys}
use syscert.Os.Calls.{stat}
use syscert.Config.{Config, DistributeTarget, effective_challenge, is_internal_ca}
use syscert.Validate.{Problem, validate}
use syscert.Resolve.{fqdn}
use syscert.Renewal.{Certificate, Status, inspect, sub_time}
use syscert.Store.Disk.{read_current_cert, count_accounts, list_archive}
use syscert.Observe.Files.{key_type}
use syscert.Command.{Runtime, Args, Program, load_config}

-- What the report takes from Go's library: the two formats of a time, and the subject and the names of
-- a certificate.
pub record Clocks : Type 0 where
  pub rfc3339 : ℤ → Str
  pub date : ℤ → Str
  pub subject_name : Certificate → Str
  pub issuer_name : Certificate → Str
  pub names : Certificate → List Str

abbrev hour : ℕ
hour = 3600000000000

-- "Nd", "Nd Mh" or "Mh".
unfoldable pub days_hours : ℕ → ℕ → Str
days_hours days hours =
    if ltb 0 days && ltb 0 hours
    then itoa days ++ (lit "d " ++ (itoa hours ++ lit "h"))
    else if ltb 0 days
    then itoa days ++ lit "d"
    else itoa hours ++ lit "h"

-- In whole hours. That d.Hours() is a float, which rounds up within microseconds of a full hour, is
-- not part of it.
unfoldable pub human_dur : ℤ → Str
unfolding days_hours
human_dur (negsuc n) = lit "expired"
human_dur (pos n) = days_hours (n / hour / 24) (n / hour % 24)

unfoldable pub renews_phrase : Status → ℤ → Str
unfolding human_dur
renews_phrase st now =
    if st.due then lit "due now" else lit "in " ++ human_dur (sub_time st.renew_at now)

abbrev comma_tail : List Str → Str
comma_tail [] = []
comma_tail (n ∷ ns) = lit ", " ++ (n ++ comma_tail ns)

unfoldable pub sans : List Str → Str
sans [] = lit "(none)"
sans (n ∷ ns) = n ++ comma_tail ns

-- The format %-10s, for a width of ten and a text in ASCII.
unfoldable pub pad_to : ℕ → Str → Str
pad_to zero s = s
pad_to (suc n) [] = 32 ∷ pad_to n []
pad_to (suc n) (c ∷ s) = c ∷ pad_to n s

abbrev line : Str → Str → Str
line label value = label ++ (value ++ (10 ∷ []))

module _ (w : Runtime) (clocks : Clocks) where
  abbrev line_of : ℤ → Result (Status × Certificate) → Str
  line_of now (err e) = []
  line_of now (ok (st, leaf)) =
      lit "cert expires "
      ++ (clocks.date st.not_after
          ++ (lit " (in "
              ++ (human_dur (sub_time st.not_after now)
                  ++ (lit "); renews " ++ renews_phrase st now))))

  abbrev line_read : Config → ℤ → Result Str → Str
  line_read cfg now (err e) = []
  line_read cfg now (ok cert_pem) =
      line_of now (inspect w.parsers cert_pem cfg.renewal.renew_before now)

  unfoldable pub cert_line : Config → ℤ → Sys → Str × Sys
  unfolding renews_phrase
  cert_line cfg now s =
      let (r, s') = read_current_cert cfg.store.path s in (line_read cfg now r, s')

  -- The first lines, up to the certificate.
  unfoldable pub settings_lines : Config → Str
  settings_lines cfg =
      line (lit "subject:   ") (subject_text (fqdn cfg.cert.hostname w.hostname))
      ++ (line (lit "CA:        ") cfg.acme.ca
          ++ ((if is_internal_ca cfg.acme.ca && not (is_empty cfg.acme.directory_url)
                then line (lit "directory: ") cfg.acme.directory_url
                else [])
              ++ (line (lit "challenge: ") (effective_challenge cfg)
                  ++ (line (lit "EAB:       ")
                        (if is_empty cfg.acme.eab.kid then lit "no" else lit "yes (kid set)")
                      ++ problems_text (validate w.checks cfg)))))
    where
      subject_text : Result Str → Str
      subject_text (ok subject) = subject
      subject_text (err e) = lit "(unresolved: " ++ (w.error_text e ++ lit ")")

      problems_text : List Problem → Str
      problems_text [] = []
      problems_text (p ∷ ps) =
          lit "config:    "
          ++ (itoa (length (p ∷ ps)) ++ lit " problem(s) — run `syscert dry-run --config-only`\n")

  abbrev cert_found : ℤ → Status × Certificate → Str
  cert_found now (st, leaf) =
      line (lit "  subject:    ") (clocks.subject_name leaf)
      ++ (line (lit "  SANs:       ") (sans (clocks.names leaf))
          ++ (line (lit "  issuer:     ") (clocks.issuer_name leaf)
              ++ (line (lit "  key:        ") (key_type leaf.public_key)
                  ++ (line (lit "  issued:     ") (clocks.rfc3339 st.not_before)
                      ++ (line (lit "  expires:    ") (
                            clocks.rfc3339 st.not_after
                            ++ (lit " (in " ++ (human_dur (sub_time st.not_after now) ++ lit ")")))
                          ++ line (lit "  renews:     ") (renews_phrase st now))))))

  abbrev cert_inspected : ℤ → Result (Status × Certificate) → Str
  cert_inspected now (err e) = line (lit "  unreadable: ") (w.error_text e)
  cert_inspected now (ok found) = cert_found now found

  unfoldable pub cert_lines : Config → ℤ → Result Str → Str
  unfolding renews_phrase sans
  cert_lines cfg now (err e) = line (lit "  none yet in ") cfg.store.path
  cert_lines cfg now (ok cert_pem) =
      cert_inspected now (inspect w.parsers cert_pem cfg.renewal.renew_before now)

  abbrev archive_line : List Str → Str
  archive_line [] = []
  archive_line (n ∷ ns) = lit "archive:   " ++ (itoa (length (n ∷ ns)) ++ lit " snapshot(s)\n")

  abbrev target_state : Result Node → Str
  target_state (ok n) = lit "present"
  target_state (err e) = lit "MISSING"

  unfoldable pub target_report : List DistributeTarget → Sys → Str × Sys
  unfolding pad_to
  target_report [] s = ([], s)
  target_report (d ∷ ds) s =
      let (r, s') = stat (resolve d.path) s in
      let (rest, s'') = target_report ds s' in
      (
        lit "  "
            ++ (pad_to 10 d.artifact
                ++ (lit " " ++ (d.path ++ (lit "  [" ++ (target_state r ++ (lit "]\n" ++ rest)))))),
        s'',
      )

  abbrev headed : Str × Sys → List DistributeTarget → Str
  headed (text, s) [] = []
  headed (text, s) (d ∷ ds) = lit "\ndistribute:\n" ++ text

  unfoldable pub write_status : Config → ℤ → Sys → Str × Sys
  unfolding settings_lines cert_lines target_report
  write_status cfg now s =
      let (pem, s1) = read_current_cert cfg.store.path s in
      let (accounts, s2) = count_accounts cfg.store.path s1 in
      let (snapshots, s3) = list_archive cfg.store.path s2 in
      let targets = target_report cfg.distribute s3 in
      (
        settings_lines cfg
            ++ (lit "\ncertificate:\n"
                ++ (cert_lines cfg now pem
                    ++ (lit "\naccounts:  "
                        ++ (itoa accounts
                            ++ (lit " (under "
                                ++ (cfg.store.path
                                    ++ (lit "/accounts)\n"
                                        ++ (archive_line snapshots
                                            ++ headed targets cfg.distribute)))))))),
        targets.1,
      )

-- The report is printed; what stays is the exit code.
abbrev reported : Runtime → Clocks → Result Config × Sys → ℕ × Sys
reported w clocks (err e, s) = (2, s)
reported w clocks (ok cfg, s) = (0, (write_status w clocks cfg (w.clock s) s).1)

unfoldable pub cmd_status : Runtime → Clocks → Args → Program
unfolding load_config write_status
cmd_status w clocks a s =
    if not a.parsed then (2, s) else reported w clocks (load_config w a.config_path s)
