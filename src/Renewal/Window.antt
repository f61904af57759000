-- ===== src/Renewal/Window.antt =====
-- The renewal window of internal/renewal/renewal.go.
use syscert.Base.{
  ℕ, ◌-◌, ◌*◌, ◌/◌, ◌^◌, ◌≤◌, ◌<◌, ◌≡◌, false, some, [], arith, Bool-cases, inl, inr,
}
use syscert.Base.Int.{ℤ, pos, negsuc, ◌-ℤ◌, ◌*ℤ◌, ◌≤ℤ◌, ltb_ℤ, quot, -ℤ_parts, ltb_ℤ→<ℤ}
use syscert.Go.Strings.{Str}
use syscert.Os.{ok}
use syscert.Renewal.{
  Certificate, Parsers, max_duration, saturate, sub_time, wrap_64, atoi, day, parse_days, window_of,
  status_at, inspect_cert, is_least, add_opposite,
}

-- Without renew_before, a certificate with a lifetime that a Duration can hold has the status of a
-- window of a third of its lifetime, rounded down.
pub renew_at_auto :
    (g : Parsers) (cert : Certificate) (life : ℕ) (now : ℤ)
    → life ≤ max_duration
    → cert.not_after -ℤ cert.not_before ≡ pos life
    → inspect_cert g cert [] now ≡ ok (status_at g cert (pos (life / 3)) now, cert)
unfolding inspect_cert window_of sub_time quot
renew_at_auto g cert life now short e = rw (e, saturate) (ground arith)

day_pattern : (n : ℕ) → n ≤ 106751 → wrap_64 (pos n *ℤ pos day) ≡ pos (n * day)
unfolding wrap_64 ◌*ℤ◌
day_pattern n h = ground arith

day_pattern_negative :
    (n : ℕ) → 106751 < n → n < 213504 → wrap_64 (pos n *ℤ pos day) ≡ negsuc (2 ^ 64 - 1 - n * day)
unfolding wrap_64 ◌*ℤ◌
day_pattern_negative n lo hi = ground arith

-- A window of at most 106751 whole days, as many as a Duration can hold, is read as that many days.
parse_days-exact :
    (g : Parsers) (s days : Str) (n : ℕ)
    → atoi days ≡ some (pos n)
    → n ≤ 106751
    → parse_days g s days ≡ ok (pos (n * day))
unfolding parse_days
parse_days-exact g s days n e h = rw (e, parse_days) (rw (day_pattern n h))

early : (a t : ℤ) (k : ℕ) → t ≤ℤ a → ltb_ℤ (a -ℤ negsuc k) t ≡ false
early a t k h = elim (Bool-cases (ltb_ℤ (a -ℤ negsuc k) t)) [
  | inl y ↦ absurd (omega (arith, ltb_ℤ→<ℤ (a -ℤ negsuc k) t y, -ℤ_parts a (negsuc k)))
  | inr n ↦ n
]

no_least : (n : ℕ) → 106751 < n → n < 213504 → is_least (negsuc (2 ^ 64 - 1 - n * day)) ≡ false
no_least n lo hi = ground arith

-- A window of 106752 to 213503 days comes out negative, and under it no certificate is due up to
-- its expiry.
pub parse_days-overflow :
    (g : Parsers) (s days : Str) (n : ℕ)
    → atoi days ≡ some (pos n)
    → 106751 < n
    → n < 213504
    → (k : ℕ) × (parse_days g s days ≡ ok (negsuc k))
      × ((cert : Certificate) (now : ℤ)
          → now ≤ℤ cert.not_after
          → (status_at g cert (negsuc k) now).due ≡ false)
unfolding parse_days status_at add_opposite
parse_days-overflow g s days n e lo hi = (
  2 ^ 64 - 1 - n * day,
  rw (e, parse_days) (rw (day_pattern_negative n lo hi)),
  λ cert now h. rw (no_least n lo hi) (early cert.not_after now (2 ^ 64 - 1 - n * day) h),
)
