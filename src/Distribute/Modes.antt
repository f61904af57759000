-- ===== src/Distribute/Modes.antt =====
-- The mode that internal/distribute/distribute.go gives a file, for targets that the validator accepts.
use syscert.Base.{
  none, Option, Bool, not, ◌==◌, subst, ◌∙◌, ℕ, ◌≡◌, ◌≢◌, ◌/◌, ◌%◌, false, some, [], ◌∷◌, arith,
  if◌then◌else◌,
}
use syscert.Go.Strings.{Str, lit, str_eq_iff, is_empty, parse_octal, OneOf}
use syscert.Os.Calls.{file_mode}
use syscert.Config.{DistributeTarget}
use syscert.Validate.{world_readable}
use syscert.Validate.Rules.{TargetFits}
use syscert.Distribute.{default_mode, target_mode}

-- The bit that lets everybody read.
abbrev pub other_read : ℕ → ℕ
other_read m = m / 4 % 2

other_read-file_mode : (v : ℕ) → other_read (file_mode v) ≡ other_read v
unfolding file_mode
other_read-file_mode v = omega arith

some_inj : {a b : ℕ} → some a ≡ some b → a ≡ b
some_inj e = cc

default_mode_private :
    (a : Str) → OneOf a (lit "privkey" ∷ lit "bundle" ∷ []) → default_mode a ≡ 0o600
unfolding default_mode
default_mode_private a o = ground (arith, str_eq_iff a (lit "privkey"), str_eq_iff a (lit "bundle"))

not_world_readable :
    (mode : Str) (m : ℕ)
    → world_readable mode ≡ false
    → elim (parse_octal mode) as (λ _. Option ℕ) [ none ↦ none | some v ↦ some (file_mode v) ]
      ≡ some m
    → other_read m ≡ 0
unfolding world_readable
not_world_readable mode m = go (parse_octal mode)
  where
    go :
        (o : Option ℕ)
        → (elim o as (λ _. Bool) [ none ↦ false | some v ↦ not (v / 4 % 2 == 0) ]) ≡ false
        → (elim o as (λ _. Option ℕ) [ none ↦ none | some v ↦ some (file_mode v) ]) ≡ some m
        → other_read m ≡ 0
    go none h e = cc e
    go (some v) h e =
        subst (λ x. other_read x ≡ 0) (some_inj e) (other_read-file_mode v ∙ ground arith)

mode_private :
    (t : DistributeTarget) (mode : Str) (m : ℕ)
    → OneOf t.artifact (lit "privkey" ∷ lit "bundle" ∷ [])
    → (mode ≢ [] → world_readable mode ≡ false)
    → (if is_empty mode
        then some (default_mode t.artifact)
        else elim (parse_octal mode) as (λ _. Option ℕ) [
          | none ↦ none
          | some v ↦ some (file_mode v)
        ])
      ≡ some m
    → other_read m ≡ 0
mode_private t [] m o h e = ground (arith, default_mode_private t.artifact o)
mode_private t (c ∷ mode) m o h e = not_world_readable (c ∷ mode) m (h (λ p. cc)) e

-- A target that the validator accepts and whose artifact holds the private key is never given a
-- mode that lets everybody read it.
pub target_mode_private :
    (t : DistributeTarget) (m : ℕ)
    → TargetFits t
    → OneOf t.artifact (lit "privkey" ∷ lit "bundle" ∷ [])
    → target_mode t ≡ some m
    → other_read m ≡ 0
unfolding target_mode
target_mode_private t m fits o e = mode_private t t.mode m o (fits.mode o) e
