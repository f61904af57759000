-- ===== src/Atomicfile/Names.antt =====
-- Names that no temporary file of an atomic write has.
use syscert.Base.{ℕ, ◌≡◌, ◌≢◌, refl, ap, ◌∙◌, All, none, true, false, [], ◌∷◌, ◌++◌, arith}
use syscert.Go.Strings.{Str, lit, has_prefix, itoa}
use syscert.Go.Filepath.{FilePath, last_part}
use syscert.Os.{parent, Fs, lookup}
use syscert.Os.Laws.{path_eq_iff}
use syscert.Os.Calls.{temp_name}
use syscert.Atomicfile.States.{temp_path}

abbrev pub IsPlain : Str → Type 0
IsPlain name = has_prefix name (lit ".syscert-") ≡ false

-- A path whose last component is no temporary name.
abbrev pub IsPlainPath : FilePath → Type 0
IsPlainPath p = IsPlain (last_part p)

has_prefix-append : (p s : Str) → has_prefix (p ++ s) p ≡ true
unfolding has_prefix
has_prefix-append [] s = refl
has_prefix-append (c ∷ p) s = ground (arith, has_prefix-append p s)

name-ne : (name : Str) (n : ℕ) → IsPlain name → name ≢ temp_name (lit ".syscert-") (lit ".tmp") n
unfolding temp_name
name-ne name n plain e = cc (
  ap (λ x. has_prefix x (lit ".syscert-")) e,
  plain,
  has_prefix-append (lit ".syscert-") (itoa n ++ lit ".tmp"),
)

pub last_part-snoc : (d : FilePath) (x : Str) → last_part (d ++ (x ∷ [])) ≡ x
unfolding last_part
last_part-snoc [] x = refl
last_part-snoc (c ∷ []) x = refl
last_part-snoc (c ∷ e ∷ d) x = last_part-snoc (e ∷ d) x

pub plain-ne : (p x : FilePath) (n : ℕ) → IsPlainPath p → p ≢ temp_path x n
plain-ne p x n plain e =
    name-ne (last_part p) n plain (ap last_part e ∙ last_part-snoc (parent x) _)

-- Where every file has a plain name, no file has the name of a temporary one.
pub plain-free :
    (fs : Fs)
    → All (λ e. IsPlainPath e.0) fs
    → (x : FilePath) (n : ℕ) → lookup (temp_path x n) fs ≡ none
unfolding lookup
plain-free [] plain x n = refl
plain-free ((q, m) ∷ fs) plain x n =
    ground (arith, plain-free fs plain.1 x n, plain-ne q x n plain.0, path_eq_iff q (temp_path x n))
