-- ===== src/Go/Sort.antt =====
-- sort.Strings: the order of bytes, and a sort by it.
use syscert.Base.{
  Bool, true, false, ◌≡◌, refl, ◌∙◌, ◌||◌, ◌&&◌, List, [], ◌∷◌, arith, if◌then◌else◌, ltb, ◌==◌,
}
use syscert.Go.Strings.{Str, str_eq, str_eq_iff, contains}

unfoldable pub str_leb : Str → Str → Bool
str_leb [] t = true
str_leb (a ∷ s) [] = false
str_leb (a ∷ s) (b ∷ t) = ltb a b || ((a == b) && str_leb s t)

unfoldable pub insert_sorted : Str → List Str → List Str
insert_sorted s [] = s ∷ []
insert_sorted s (t ∷ ts) =
    let rest = insert_sorted s ts in if str_leb s t then s ∷ t ∷ ts else t ∷ rest

unfoldable pub sort : List Str → List Str
unfolding insert_sorted str_leb
sort [] = []
sort (s ∷ ss) = insert_sorted s (sort ss)

contains-insert_sorted :
    (s : Str) (ts : List Str) (x : Str)
    → contains (insert_sorted s ts) x ≡ (str_eq s x || contains ts x)
unfolding contains insert_sorted
contains-insert_sorted s [] x = refl
contains-insert_sorted s (t ∷ ts) x = ground (arith, contains-insert_sorted s ts x)

-- A sort neither adds nor loses a text.
pub contains-sort : (ts : List Str) (x : Str) → contains (sort ts) x ≡ contains ts x
unfolding contains sort
contains-sort [] x = refl
contains-sort (t ∷ ts) x = ground (arith, contains-insert_sorted t (sort ts) x, contains-sort ts x)

-- No text is listed twice.
abbrev pub Distinct : List Str → Type 0
Distinct [] = Unit
Distinct (t ∷ ts) = (contains ts t ≡ false) × Distinct ts

insert_sorted-Distinct :
    (s : Str) (ts : List Str) → contains ts s ≡ false → Distinct ts → Distinct (insert_sorted s ts)
unfolding contains insert_sorted
insert_sorted-Distinct s [] h d = (refl, tt)
insert_sorted-Distinct s (t ∷ ts) h d = ground (
  arith,
  contains-insert_sorted s ts t,
  str_eq_iff s t,
  str_eq_iff t s,
  insert_sorted-Distinct s ts,
)

pub sort-Distinct : (ts : List Str) → Distinct ts → Distinct (sort ts)
unfolding sort
sort-Distinct [] d = tt
sort-Distinct (t ∷ ts) d =
    insert_sorted-Distinct t (sort ts) (contains-sort ts t ∙ d.0) (sort-Distinct ts d.1)
