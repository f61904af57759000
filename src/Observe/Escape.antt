-- ===== src/Observe/Escape.antt =====
-- What the exposition format makes of label values escaped by internal/observe/observe.go.
use syscert.Base.{
  ℕ, ◌≡◌, refl, ap, ◌∙◌, Bool, true, false, Option, none, some, [], ◌∷◌, ◌++◌, append_assoc, arith,
  if◌then◌else◌, ◌==◌,
}
use syscert.Go.Strings.{Str, has_byte}
use syscert.Observe.{escape_byte, escape_label}

abbrev pub on_first : ℕ → Option (Str × Str) → Option (Str × Str)
on_first c none = none
on_first c (some (v, rest)) = some (c ∷ v, rest)

-- The exposition format has three escapes: of the backslash, of the quote and of the newline.
abbrev pub meant : ℕ → Option ℕ
meant c =
    if c == 92 then some 92 else if c == 34 then some 34 else if c == b'n' then some 10 else none

abbrev pub on_escape : Option ℕ → Option (Str × Str) → Option (Str × Str)
on_escape none r = none
on_escape (some c) r = on_first c r

-- How a reader of the exposition format takes a label value apart. Given whether the byte before was a
-- backslash, and the text, it reads the value and what follows its closing quote, or refuses the text:
-- for another escape, for a newline within the value, or when no quote closes it.
unfoldable pub read_label : Bool → Str → Option (Str × Str)
read_label e [] = none
read_label e (c ∷ s) =
    let plain = read_label false s in
    let quote = read_label true s in
    if e
    then on_escape (meant c) plain
    else if c == 34
    then some ([], s)
    else if c == 92
    then quote
    else if c == 10
    then none
    else on_first c plain

read_label-escape_byte :
    (c : ℕ) (s : Str)
    → read_label false (escape_byte c ++ s)
      ≡ (if c == 13 then none else on_first c (read_label false s))
unfolding read_label escape_byte
read_label-escape_byte c s = ground arith

one_more :
    (c : ℕ) (v rest : Str)
    → (if c == 13 then none else on_first c (if has_byte 13 v then none else some (v, rest)))
      ≡ (if has_byte 13 (c ∷ v) then none else some (c ∷ v, rest))
unfolding has_byte
one_more c v rest = ground arith

-- A reader of the exposition format that is given an escaped value, a quote and anything behind it
-- reads the value back and stops at that quote, if the value has no carriage return; it refuses every
-- value that has one, since the format has no escape for it.
pub read_label-escape_label :
    (v rest : Str)
    → read_label false (escape_label v ++ (34 ∷ rest))
      ≡ (if has_byte 13 v then none else some (v, rest))
unfolding read_label escape_label has_byte
read_label-escape_label [] rest = refl
read_label-escape_label (c ∷ v) rest =
    ap (read_label false) (append_assoc (escape_byte c) (escape_label v) (34 ∷ rest))
    ∙ read_label-escape_byte c (escape_label v ++ (34 ∷ rest))
    ∙ ap (λ r. if c == 13 then none else on_first c r) (read_label-escape_label v rest)
    ∙ one_more c v rest
