-- ===== src/Observe.antt =====
-- internal/observe/observe.go: the texts of the state files for monitoring.
pub mod Files
pub mod Apart
pub mod Escape
use syscert.Base.{
  ℕ, suc, ◌/◌, Bool, true, false, Option, none, some, List, [], ◌∷◌, ◌++◌, length, if◌then◌else◌,
  ◌==◌,
}
use syscert.Base.Int.{ℤ, pos, negsuc}
use syscert.Go.Strings.{Str, lit, itoa}
use syscert.Atomicfile
use syscert.Renewal.{Certificate}

pub record Target : Type 0 where
  pub artifact : Str
  pub path : Str
  pub present : Bool

-- What is known of the certificate, if there is a readable one.
pub record CertFacts : Type 0 where
  pub not_before : ℤ
  pub not_after : ℤ
  pub renew_after : ℤ
  pub renewal_due : Bool
  pub issuer : Str
  pub serial : Str
  pub key_type : Str

pub record Snapshot : Type 0 where
  pub version : Str
  pub subject : Str
  pub ca : Str
  pub challenge : Str
  pub facts : Option CertFacts
  pub targets : List Target
  pub generated : ℤ

-- time.Time.Unix: whole seconds, rounded down.
unfoldable pub unix : ℤ → ℤ
unix (pos n) = pos (n / 1000000000)
unix (negsuc n) = negsuc (n / 1000000000)

-- %d
unfoldable pub int_text : ℤ → Str
int_text (pos n) = itoa n
int_text (negsuc n) = 45 ∷ itoa (suc n)

unfoldable pub b2i : Bool → ℤ
b2i true = pos 1
b2i false = pos 0

-- One byte of a label value.
unfoldable pub escape_byte : ℕ → Str
escape_byte c =
    if c == 92
    then 92 ∷ 92 ∷ []
    else if c == 34
    then 92 ∷ 34 ∷ []
    else if c == 10
    then 92 ∷ b'n' ∷ []
    else if c == 13
    then 92 ∷ b'r' ∷ []
    else c ∷ []

unfoldable pub escape_label : Str → Str
unfolding escape_byte
escape_label [] = []
escape_label (c ∷ v) = escape_byte c ++ escape_label v

-- The closure `g` of Prometheus.
unfoldable pub gauge : Str → Str → ℤ → Str
unfolding int_text
gauge name help v =
    lit "# HELP "
    ++ (name
        ++ (32
            ∷ (help
                ++ (10
                    ∷ (lit "# TYPE "
                        ++ (name
                            ++ (lit " gauge\n" ++ (name ++ (32 ∷ (int_text v ++ (10 ∷ [])))))))))))

abbrev quoted : Str → Str
quoted v = 34 ∷ (escape_label v ++ (34 ∷ []))

-- The renewal time stands in every snapshot with a certificate; the zero time is year 1.
unfoldable pub zero_time : ℤ
zero_time = negsuc 62135596799999999999

abbrev is_zero_time : ℤ → Bool
is_zero_time (pos n) = false
is_zero_time (negsuc n) = n == 62135596799999999999

unfoldable pub cert_gauges : Option CertFacts → Str
unfolding gauge
cert_gauges none = []
cert_gauges (some f) =
    gauge (lit "syscert_cert_not_before_seconds") (lit "Certificate notBefore, unix seconds.")
      (unix f.not_before)
    ++ (gauge (lit "syscert_cert_not_after_seconds")
          (lit "Certificate notAfter (expiry), unix seconds.") (unix f.not_after)
        ++ ((if is_zero_time f.renew_after
              then []
              else gauge (lit "syscert_cert_renew_after_seconds")
                  (lit "When the certificate becomes eligible for renewal, unix seconds.")
                  (unix f.renew_after))
            ++ gauge (lit "syscert_cert_renewal_due")
                (lit "1 if the certificate is inside its renewal window.") (b2i f.renewal_due)))

unfoldable pub count_present : List Target → ℕ
count_present [] = 0
count_present (t ∷ ts) = if t.present then suc (count_present ts) else count_present ts

unfoldable pub target_lines : List Target → Str
target_lines [] = []
target_lines (t ∷ ts) =
    lit "syscert_distribute_target_present{path="
    ++ (quoted t.path
        ++ (lit ",artifact="
            ++ (quoted t.artifact
                ++ (lit "} " ++ (int_text (b2i t.present) ++ (10 ∷ target_lines ts))))))

unfoldable pub target_section : List Target → Str
unfolding target_lines
target_section [] = []
target_section (t ∷ ts) =
    lit "# HELP syscert_distribute_target_present 1 if this target's file exists on disk.\n"
    ++ (lit "# TYPE syscert_distribute_target_present gauge\n" ++ target_lines (t ∷ ts))

abbrev fact_text : (CertFacts → Str) → Option CertFacts → Str
fact_text f none = []
fact_text f (some c) = f c

abbrev has_facts : Option CertFacts → Bool
has_facts none = false
has_facts (some f) = true

unfoldable pub prometheus : Snapshot → Str
unfolding gauge cert_gauges count_present target_section escape_label
prometheus s =
    gauge (lit "syscert_last_run_timestamp_seconds")
      (lit "Unix time of the last completed syscert run.") (unix s.generated)
    ++ (gauge (lit "syscert_cert_present")
          (lit "1 if a certificate is present in the store, 0 otherwise.") (b2i (has_facts s.facts))
        ++ (cert_gauges s.facts
            ++ (gauge (lit "syscert_distribute_targets") (lit "Configured distribution targets.")
                  (pos (length s.targets))
                ++ (gauge (lit "syscert_distribute_targets_present")
                      (lit "Distribution targets whose file exists on disk.")
                      (pos (count_present s.targets))
                    ++ (target_section s.targets
                        ++ (lit
                              "# HELP syscert_cert_info Labelled certificate metadata; value is always 1.\n"
                            ++ (lit "# TYPE syscert_cert_info gauge\n"
                                ++ (lit "syscert_cert_info{subject="
                                    ++ (quoted s.subject
                                        ++ (lit ",ca="
                                            ++ (quoted s.ca
                                                ++ (lit ",challenge="
                                                    ++ (quoted s.challenge
                                                        ++ (lit ",issuer="
                                                            ++ (quoted
                                                            (fact_text (λ f. f.issuer) s.facts)
                                                            ++ (lit ",serial="
                                                            ++ (quoted
                                                            (fact_text (λ f. f.serial) s.facts)
                                                            ++ (lit ",key_type="
                                                            ++ (quoted
                                                            (fact_text (λ f. f.key_type) s.facts)
                                                            ++ (lit ",version="
                                                            ++ (quoted s.version
                                                            ++ lit "} 1\n")))))))))))))))))))))
