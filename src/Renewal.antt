-- ===== src/Renewal.antt =====
-- internal/renewal/renewal.go: when a certificate is due. Times are whole nanoseconds from the epoch.
-- `pem.Decode` with `x509.ParseCertificate`, and `time.ParseDuration`, are parameters.
pub mod Window
use syscert.Base.{
  ℕ, ◌+◌, ◌-◌, ◌*◌, ◌%◌, ◌^◌, Bool, false, ◌&&◌, Option, none, some, [], ◌∷◌, ltb, leb, ◌==◌,
  if◌then◌else◌,
}
use syscert.Base.Int.{ℤ, pos, negsuc, ◌-ℤ◌, ◌+ℤ◌, ◌*ℤ◌, ltb_ℤ, quot, sub_ℕ}
use syscert.Go.Strings.{Str, is_empty}
use syscert.Os.{text, wrap, Result, ok, err}

pub data PublicKey : Type 0 where
  ecdsa : Str → PublicKey
  rsa : ℕ → PublicKey
  other_key : Str → PublicKey

-- What the program reads of a parsed certificate.
pub record Certificate : Type 0 where
  pub not_before : ℤ
  pub not_after : ℤ
  pub issuer : Str
  pub serial : Str
  pub public_key : PublicKey

pub record Status : Type 0 where
  pub not_before : ℤ
  pub not_after : ℤ
  pub renew_at : ℤ
  pub due : Bool

-- The parts of Go's library that read certificates and durations.
pub record Parsers : Type 0 where
  pub decode : Str → Option Str
  pub parse_certificate : Str → Option Certificate
  pub parse_duration : Str → Option ℤ

abbrev pub max_duration : ℕ
max_duration = 2 ^ 63 - 1

-- time.Time.Sub: a difference out of the range of a Duration is cut off at its ends.
unfoldable pub saturate : ℤ → ℤ
saturate (pos n) = pos (if ltb max_duration n then max_duration else n)
saturate (negsuc n) = negsuc (if ltb max_duration n then max_duration else n)

unfoldable pub sub_time : ℤ → ℤ → ℤ
unfolding saturate
sub_time a b = saturate (a -ℤ b)

-- The value of an int64 with this two's complement pattern.
unfoldable pub of_pattern : ℕ → ℤ
of_pattern n = if ltb n (2 ^ 63) then pos n else negsuc (2 ^ 64 - 1 - n)

-- An integer reduced to an int64.
unfoldable pub wrap_64 : ℤ → ℤ
unfolding of_pattern
wrap_64 (pos n) = of_pattern (n % 2 ^ 64)
wrap_64 (negsuc n) = of_pattern (2 ^ 64 - 1 - n % 2 ^ 64)

digits_from : ℕ → Str → Option ℕ
digits_from n [] = some n
digits_from n (c ∷ s) =
    let rest = digits_from (n * 10 + (c - 48)) s in if leb 48 c && leb c 57 then rest else none

-- A sign and at least one digit.
unfoldable pub signed_digits : Str → Option ℤ
unfolding digits_from
signed_digits [] = none
signed_digits (c ∷ []) = elim (digits_from 0 (c ∷ [])) [ none ↦ none | some n ↦ some (pos n) ]
signed_digits (c ∷ d ∷ s) =
    if c == 45
    then elim (digits_from 0 (d ∷ s)) [ none ↦ none | some n ↦ some (sub_ℕ 0 n) ]
    else elim (digits_from 0 (if c == 43 then d ∷ s else c ∷ d ∷ s)) [
      | none ↦ none
      | some n ↦ some (pos n)
    ]

abbrev in_int64 : ℤ → Bool
in_int64 (pos n) = ltb n (2 ^ 63)
in_int64 (negsuc n) = ltb n (2 ^ 63)

-- strconv.Atoi on a 64-bit host.
unfoldable pub atoi : Str → Option ℤ
unfolding signed_digits
atoi s = elim (signed_digits s) [ none ↦ none | some n ↦ if in_int64 n then some n else none ]

-- strings.CutSuffix(s, "d")
unfoldable pub cut_day : Str → Option Str
cut_day [] = none
cut_day (c ∷ []) = if c == b'd' then some [] else none
cut_day (c ∷ d ∷ s) = elim (cut_day (d ∷ s)) [ none ↦ none | some r ↦ some (c ∷ r) ]

-- 24 hours in nanoseconds.
abbrev pub day : ℕ
day = 86400000000000

abbrev pub is_least : ℤ → Bool
is_least (pos n) = false
is_least (negsuc k) = k == 2 ^ 63 - 1

-- t.Add(-d) of a Duration; the least one is its own opposite.
unfoldable pub add_opposite : ℤ → ℤ → ℤ
add_opposite t d = if is_least d then t +ℤ d else t -ℤ d

module _ (g : Parsers) where
  unfoldable pub parse_days : Str → Str → Result ℤ
  parse_days s days = elim (atoi days) [
    | none ↦
        err (
          wrap "invalid day duration %q: %w" (s ∷ []) (text "strconv.Atoi: parsing %q" (days ∷ [])))
    | some n ↦ ok (wrap_64 (n *ℤ pos day))
  ]

  unfoldable pub parse_go_duration : Str → Result ℤ
  parse_go_duration s = elim (g.parse_duration s) [
    | none ↦
        err (wrap "invalid duration %q: %w" (s ∷ []) (text "time: invalid duration %q" (s ∷ [])))
    | some d ↦ ok d
  ]

  unfoldable pub parse_window : Str → Result ℤ
  unfolding parse_days parse_go_duration
  parse_window s =
      if is_empty s
      then err (text "empty duration" [])
      else elim (cut_day s) [ some days ↦ parse_days s days | none ↦ parse_go_duration s ]

  -- A third of the lifetime, where no window is configured.
  unfoldable pub window_of : Certificate → Str → Result ℤ
  window_of cert renew_before =
      if is_empty renew_before
      then ok (quot (sub_time cert.not_after cert.not_before) 3)
      else parse_window renew_before

  unfoldable pub status_at : Certificate → ℤ → ℤ → Status
  unfolding add_opposite
  status_at cert window now =
      let renew_at = add_opposite cert.not_after window in
      record {
        not_before = cert.not_before;
        not_after = cert.not_after;
        renew_at = renew_at;
        due = ltb_ℤ renew_at now;
      }

  unfoldable pub inspect_cert : Certificate → Str → ℤ → Result (Status × Certificate)
  unfolding status_at
  inspect_cert cert renew_before now = elim (window_of cert renew_before) [
    | err e ↦ err e
    | ok window ↦ ok (status_at cert window now, cert)
  ]

  unfoldable pub inspect : Str → Str → ℤ → Result (Status × Certificate)
  inspect cert_pem renew_before now = elim (g.decode cert_pem) [
    | none ↦ err (text "no PEM certificate block found" [])
    | some bytes ↦ elim (g.parse_certificate bytes) [
      | none ↦ err (wrap "parse certificate: %w" [] (text "x509: malformed certificate" []))
      | some cert ↦ inspect_cert cert renew_before now
    ]
  ]

  unfoldable pub due : Str → Str → ℤ → Result Bool
  due cert_pem renew_before now = elim (inspect cert_pem renew_before now) [
    | err e ↦ err e
    | ok (s, cert) ↦ ok s.due
  ]
