-- ===== src/Go/Strings.antt =====
-- Texts as lists of bytes, with the functions of Go's `strings`, `slices` and `strconv` that the
-- program calls. White space is the ASCII white space of `strings.TrimSpace`.
use Prim.Native.Char.{code}
use Prim.Native.String.{String}
use syscert.Base.{
  ℕ, zero, suc, ◌+◌, ◌-◌, ◌*◌, ◌^◌, ◌<◌, ◌≡◌, ◌≢◌, refl, ◌↔◌, Bool, true, false, ◌&&◌, ◌||◌, ◌⊎◌,
  inl, inr, ◌/◌, ◌%◌, Option, none, some, List, [], ◌∷◌, ◌++◌, arith, ltb, leb, ◌==◌, if◌then◌else◌,
}

abbrev pub Str : Type 0
Str = List ℕ

-- A literal of the source. It is shut, so that a proof does not compute with its bytes.
unfoldable pub lit : String → Str
lit String.[] = []
lit (String.◌∷◌ c s) = code c ∷ lit s

-- Go's `==` on strings.
unfoldable pub str_eq : Str → Str → Bool
str_eq [] [] = true
str_eq [] (_ ∷ _) = false
str_eq (_ ∷ _) [] = false
str_eq (a ∷ s) (b ∷ t) = (a == b) && str_eq s t

pub str_eq_iff : (s t : Str) → (str_eq s t ≡ true) ↔ (s ≡ t)
unfolding str_eq
str_eq_iff (a ∷ s) (b ∷ t) = ground (arith, str_eq_iff s t)
str_eq_iff _ _ = ground arith

pub str_eq_refl : (s : Str) → str_eq s s ≡ true
str_eq_refl s = (str_eq_iff s s).1 refl

-- s == ""
abbrev pub is_empty : Str → Bool
is_empty [] = true
is_empty (_ ∷ _) = false

-- slices.Contains, and the look-up in a map[string]bool that lists these keys.
unfoldable pub contains : List Str → Str → Bool
contains [] s = false
contains (t ∷ ts) s = str_eq t s || contains ts s

unfoldable pub has_prefix : Str → Str → Bool
has_prefix s [] = true
has_prefix [] (_ ∷ _) = false
has_prefix (a ∷ s) (b ∷ p) = (a == b) && has_prefix s p

-- strings.IndexByte(s, b) >= 0, strings.Contains with a one-byte text.
unfoldable pub has_byte : ℕ → Str → Bool
has_byte b [] = false
has_byte b (c ∷ s) = c == b || has_byte b s

unfoldable pub is_space : ℕ → Bool
is_space c = c == 32 || (leb 9 c && leb c 13)

-- strings.TrimLeftFunc
unfoldable pub trim_left : (ℕ → Bool) → Str → Str
trim_left p [] = []
trim_left p (c ∷ s) = let rest = trim_left p s in if p c then rest else c ∷ s

-- strings.TrimRightFunc
unfoldable pub trim_right : (ℕ → Bool) → Str → Str
trim_right p [] = []
trim_right p (c ∷ s) = let rest = trim_right p s in if is_empty rest && p c then [] else c ∷ rest

unfoldable pub trim : (ℕ → Bool) → Str → Str
unfolding trim_left trim_right
trim p s = trim_right p (trim_left p s)

unfoldable pub trim_space : Str → Str
unfolding trim is_space
trim_space s = trim is_space s

-- Prefixes the first piece of a split.
abbrev pub on_head : ℕ → List Str → List Str
on_head c [] = (c ∷ []) ∷ []
on_head c (p ∷ ps) = (c ∷ p) ∷ ps

-- strings.Split(s, b) for a one-byte separator.
unfoldable pub split : ℕ → Str → List Str
split b [] = [] ∷ []
split b (c ∷ s) = let rest = split b s in if c == b then [] ∷ rest else on_head c rest

-- strings.Join(parts, b)
unfoldable pub join_with : ℕ → List Str → Str
join_with b [] = []
join_with b (p ∷ []) = p
join_with b (p ∷ q ∷ ps) = p ++ (b ∷ join_with b (q ∷ ps))

unfoldable pub octal_digits : ℕ → Str → Option ℕ
octal_digits n [] = some n
octal_digits n (c ∷ s) =
    let rest = octal_digits (n * 8 + (c - 48)) s in if leb 48 c && leb c 55 then rest else none

-- strconv.ParseUint(s, 8, 32)
unfoldable pub parse_octal : Str → Option ℕ
unfolding octal_digits
parse_octal [] = none
parse_octal (c ∷ s) = elim (octal_digits 0 (c ∷ s)) [
  | none ↦ none
  | some n ↦ if ltb n (2 ^ 32) then some n else none
]

-- A parsed mode fits its 32 bits.
parse_octal-lt : (s : Str) (n : ℕ) → parse_octal s ≡ some n → n < 2 ^ 32
unfolding parse_octal
parse_octal-lt [] n h = ground arith
parse_octal-lt (c ∷ s) n h = ground arith

-- The decimal digits of a number; the fuel bounds the number of digits.
decimal_fuel : ℕ → ℕ → Str → Str
decimal_fuel zero n acc = acc
decimal_fuel (suc f) n acc =
    let more = decimal_fuel f (n / 10) ((48 + n % 10) ∷ acc) in
    if ltb n 10 then (48 + n) ∷ acc else more

-- %d of a number; as fuel, the number and one more is plenty.
unfoldable pub itoa : ℕ → Str
unfolding decimal_fuel
itoa n = decimal_fuel (suc n) n []

itoa_tests : (itoa 0 ≡ lit "0") × (itoa 42 ≡ lit "42") × (itoa 1907 ≡ lit "1907")
unfolding itoa lit
itoa_tests = (refl, refl, refl)

-- A text that is one of a list, as a sum of equations.
abbrev pub OneOf : Str → List Str → Type 0
OneOf s [] = ⊥
OneOf s (t ∷ []) = s ≡ t
OneOf s (t ∷ u ∷ ts) = (s ≡ t) ⊎ OneOf s (u ∷ ts)

pub contains→OneOf : (ts : List Str) (s : Str) → contains ts s ≡ true → OneOf s ts
unfolding contains
contains→OneOf [] s h = ground arith
contains→OneOf (t ∷ []) s h = ground (arith, str_eq_iff t s)
contains→OneOf (t ∷ u ∷ ts) s h =
    ground (arith, str_eq_iff t s, λ (k : contains (u ∷ ts) s ≡ true). contains→OneOf (u ∷ ts) s k)

pub OneOf→contains : (ts : List Str) (s : Str) → OneOf s ts → contains ts s ≡ true
unfolding contains
OneOf→contains [] s h = elim h [ ]
OneOf→contains (t ∷ []) s h = ground (arith, str_eq_iff t s)
OneOf→contains (t ∷ u ∷ ts) s (inl e) = ground (arith, str_eq_iff t s)
OneOf→contains (t ∷ u ∷ ts) s (inr o) = ground (arith, OneOf→contains (u ∷ ts) s o)

pub contains_iff : (ts : List Str) (s : Str) → (contains ts s ≡ true) ↔ OneOf s ts
contains_iff ts s = (contains→OneOf ts s, OneOf→contains ts s)

-- Literals of the source are told apart by computing.
pub str_ne : (s t : Str) → str_eq s t ≡ false → s ≢ t
str_ne s t h e = ground (arith, str_eq_iff s t)
