-- ===== src/Systemdpaths/Safe.antt =====
-- The directories that cmd/syscert/systemdpaths.go finds nothing against.
use syscert.Base.{
  ◌≤◌, ◌<◌, true, false, ◌↔◌, ◌≡◌, ◌≢◌, refl, none, [], ◌∷◌, arith, length, All, ◌==◌,
}
use syscert.Go.Strings.{Str, split, trim}
use syscert.Go.Filepath.{is_abs}
use syscert.Systemdpaths.{has_any, is_blank, is_control, unsafe_grant_dir}

-- A directory below the top level, by an absolute path of printing bytes other than blanks.
pub record IsSafe (d : Str) : Type 0 where
  pub absolute : is_abs d ≡ true
  pub printing : All (λ c. (32 < c) × (c ≢ 127)) d
  pub deep : 2 ≤ length (split 47 (trim (λ c. c == 47) d))

printing_bytes :
    (d : Str)
    → has_any is_blank d ≡ false
    → has_any is_control d ≡ false
    → All (λ c. (32 < c) × (c ≢ 127)) d
unfolding has_any is_blank is_control
printing_bytes [] h k = tt
printing_bytes (c ∷ d) h k = (ground arith, printing_bytes d (ground arith) (ground arith))

no_blank :
    (d : Str)
    → All (λ c. (32 < c) × (c ≢ 127)) d
    → (has_any is_blank d ≡ false) × (has_any is_control d ≡ false)
unfolding has_any is_blank is_control
no_blank [] h = (refl, refl)
no_blank (c ∷ d) h =
    let (rest, others) = no_blank d h.1 in
    let (printing, not_del) = h.0 in (ground arith, ground arith)

-- A directory has no reason against it exactly if it is safe.
pub unsafe-none_iff : (d : Str) → (unsafe_grant_dir d ≡ none) ↔ IsSafe d
unfolding unsafe_grant_dir
unsafe-none_iff d = (
  λ h. record {
    absolute = ground arith;
    printing = printing_bytes d (ground arith) (ground arith);
    deep = ground arith;
  },
  λ g. safe g.absolute (no_blank d g.printing) g.deep,
)
  where
    safe :
        is_abs d ≡ true
        → (has_any is_blank d ≡ false) × (has_any is_control d ≡ false)
        → 2 ≤ length (split 47 (trim (λ c. c == 47) d))
        → unsafe_grant_dir d ≡ none
    safe absolute (blank, control) deep = ground arith
