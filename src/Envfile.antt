-- ===== src/Envfile.antt =====
-- internal/envfile/envfile.go: variables from EnvironmentFile-style files. How bufio.Scanner cuts a
-- text into lines is a parameter, `scan`: the lines, and the error at which it stops.
pub mod Merge
use syscert.Base.{
  ℕ, ◌+◌, Bool, true, false, not, ◌&&◌, ◌||◌, Option, none, some, List, [], ◌∷◌, if◌then◌else◌,
  ◌==◌, leb,
}
use syscert.Go.Strings.{Str, str_eq, trim_left, trim_space, contains, itoa}
use syscert.Go.Filepath.{resolve}
use syscert.Os.{Error, text, wrap, Result, ok, err, Exec, pure, ◌>>=◌, ◌>>◌}
use syscert.Os.Calls.{read_file}

pub record Kv : Type 0 where
  pub key : Str
  pub value : Str

unfoldable pub is_name_start : ℕ → Bool
is_name_start c = leb 65 c && leb c 90 || leb 97 c && leb c 122 || c == 95

unfoldable pub is_name_byte : ℕ → Bool
unfolding is_name_start
is_name_byte c = is_name_start c || leb 48 c && leb c 57

unfoldable pub all_name_bytes : Str → Bool
unfolding is_name_byte
all_name_bytes [] = true
all_name_bytes (c ∷ s) = is_name_byte c && all_name_bytes s

-- ^[A-Za-z_][A-Za-z0-9_]*$
unfoldable pub is_name : Str → Bool
unfolding all_name_bytes
is_name [] = false
is_name (c ∷ s) = is_name_start c && all_name_bytes s

-- strings.IndexByte with the two slices on its sides.
abbrev before_cut : ℕ → Option (Str × Str) → Option (Str × Str)
before_cut c none = none
before_cut c (some (a, b)) = some (c ∷ a, b)

unfoldable pub cut : ℕ → Str → Option (Str × Str)
cut sep [] = none
cut sep (c ∷ s) = let rest = cut sep s in if c == sep then some ([], s) else before_cut c rest

-- The text without its last byte if that byte is `q`.
unfoldable pub drop_last : ℕ → Str → Option Str
drop_last q [] = none
drop_last q (c ∷ []) = if c == q then some [] else none
drop_last q (c ∷ d ∷ s) = elim (drop_last q (d ∷ s)) [ none ↦ none | some r ↦ some (c ∷ r) ]

abbrev or_whole : Str → Option Str → Str
or_whole v none = v
or_whole v (some inner) = inner

unfoldable pub unquote : Str → Str
unfolding drop_last
unquote [] = []
unquote (c ∷ s) = if c == 34 || c == 39 then or_whole (c ∷ s) (drop_last c s) else c ∷ s

abbrev is_blank_or_tab : ℕ → Bool
is_blank_or_tab c = c == 32 || c == 9

abbrev is_skipped : Str → Bool
is_skipped [] = true
is_skipped (c ∷ s) = c == 35 || c == 59

abbrev pair_of : ℕ → Option (Str × Str) → Result (Option Kv)
pair_of line none = err (text "line %d: missing '=' (expected KEY=value)" (itoa line ∷ []))
pair_of line (some (name, value)) =
    if not (is_name (trim_space name))
    then err (text "line %d: invalid variable name" (itoa line ∷ []))
    else ok (some (record { key = trim_space name; value = unquote (trim_space value) }))

-- `none` for a line that is skipped.
unfoldable pub parse_line : ℕ → Str → Result (Option Kv)
unfolding cut is_name unquote
parse_line line s =
    let raw = trim_left is_blank_or_tab s in
    if is_skipped raw then ok none else pair_of line (cut 61 raw)

abbrev add_parsed : Result (Option Kv) → Result (List Kv) → Result (List Kv)
add_parsed (err e) rest = err e
add_parsed (ok none) rest = rest
add_parsed (ok (some kv)) (err e) = err e
add_parsed (ok (some kv)) (ok kvs) = ok (kv ∷ kvs)

-- The loop over the lines; `ending` is what the scanner returns after them.
unfoldable pub parse_lines : ℕ → List Str → Option Error → Result (List Kv)
unfolding parse_line
parse_lines line [] none = ok []
parse_lines line [] (some e) = err e
parse_lines line (s ∷ ss) ending = add_parsed (parse_line line s) (parse_lines (line + 1) ss ending)

unfoldable pub parse : (Str → List Str × Option Error) → Str → Result (List Kv)
unfolding parse_lines
parse scan content = let (lines, ending) = scan content in parse_lines 1 lines ending

-- The value replaced where the key stands, or the pair at the end.
unfoldable pub put : List Kv → Kv → List Kv
put [] kv = kv ∷ []
put (o ∷ out) kv =
    let rest = put out kv in
    if str_eq o.key kv.key then record { key = o.key; value = kv.value } ∷ out else o ∷ rest

unfoldable pub merge_lines : (Str → Bool) → List Kv → List Kv → List Kv
unfolding put
merge_lines preset out [] = out
merge_lines preset out (kv ∷ kvs) =
    merge_lines preset (if preset kv.key then out else put out kv) kvs

unfoldable pub merge_files : (Str → Bool) → List Kv → List (List Kv) → List Kv
unfolding merge_lines
merge_files preset out [] = out
merge_files preset out (kvs ∷ files) = merge_files preset (merge_lines preset out kvs) files

unfoldable pub merge : (Str → Bool) → List (List Kv) → List Kv
unfolding merge_files
merge preset files = merge_files preset [] files

-- The files read and parsed, in order.
unfoldable pub load_files : (Str → List Str × Option Error) → List Str → Exec (List (List Kv))
unfolding parse
load_files scan [] = pure []
load_files scan (p ∷ ps) = do
  content ← read_file (resolve p)
  kvs ← (λ s.
      (elim (parse scan content) [ err e ↦ err (wrap "%s: %w" (p ∷ []) e) | ok kvs ↦ ok kvs ], s))
  files ← load_files scan ps
  pure (kvs ∷ files)

-- The loop over os.Setenv, which refuses what `settable` does not allow: the names that were set,
-- the environment, and whether all were.
unfoldable pub set_all : (Kv → Bool) → List Kv → List Kv → List Str × List Kv × Bool
unfolding put
set_all settable [] env = ([], env, true)
set_all settable (kv ∷ kvs) env =
    let (names, env', all) = set_all settable kvs (put env kv) in
    if settable kv then (kv.key ∷ names, env', all) else ([], env, false)

abbrev pub keys : List Kv → List Str
keys [] = []
keys (kv ∷ kvs) = kv.key ∷ keys kvs

-- The environment after the files were read.
unfoldable pub apply : (Kv → Bool) → List Kv → List (List Kv) → List Str × List Kv × Bool
unfolding merge set_all
apply settable env files = set_all settable (merge (contains (keys env)) files) env

-- The value of a key, that of its first pair.
unfoldable pub find : Str → List Kv → Option Str
find k [] = none
find k (kv ∷ kvs) = let rest = find k kvs in if str_eq kv.key k then some kv.value else rest
