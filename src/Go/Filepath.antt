-- ===== src/Go/Filepath.antt =====
-- Go's path/filepath on Unix, and the file names that the kernel looks up.
use mathlib.Core.List.{reverse}
use syscert.Base.{
  ◌≡◌, refl, Bool, true, false, ◌||◌, ◌&&◌, List, [], ◌∷◌, ◌++◌, ◌==◌, if◌then◌else◌,
}
use syscert.Go.Strings.{Str, lit, str_eq, is_empty, split, join_with}

unfoldable pub is_abs : Str → Bool
is_abs [] = false
is_abs (c ∷ _) = c == 47

-- One path component against the components so far, the innermost first.
unfoldable pub clean_step : Bool → List Str → Str → List Str
clean_step rooted [] p =
    if is_empty p || str_eq p (46 ∷ [])
    then []
    else if str_eq p (46 ∷ 46 ∷ []) && rooted
    then []
    else p ∷ []
clean_step rooted (q ∷ qs) p =
    if is_empty p || str_eq p (46 ∷ [])
    then q ∷ qs
    else if str_eq p (46 ∷ 46 ∷ []) && str_eq q (46 ∷ 46 ∷ [])
    then p ∷ q ∷ qs
    else if str_eq p (46 ∷ 46 ∷ [])
    then qs
    else p ∷ q ∷ qs

unfoldable pub clean_parts : Bool → List Str → List Str → List Str
unfolding clean_step
clean_parts rooted acc [] = reverse acc
clean_parts rooted acc (p ∷ ps) = clean_parts rooted (clean_step rooted acc p) ps

abbrev or_dot : Str → Str
or_dot [] = 46 ∷ []
or_dot (c ∷ s) = c ∷ s

-- filepath.Clean
unfoldable pub clean : Str → Str
unfolding clean_parts is_abs
clean s =
    let body = join_with 47 (clean_parts (is_abs s) [] (split 47 s)) in
    if is_abs s then 47 ∷ body else or_dot body

-- All pieces but the last, and the last: a split at the last separator.
unfoldable pub init_parts : List Str → List Str
init_parts [] = []
init_parts (p ∷ []) = []
init_parts (p ∷ q ∷ ps) = p ∷ init_parts (q ∷ ps)

unfoldable pub last_part : List Str → Str
last_part [] = []
last_part (p ∷ []) = p
last_part (p ∷ q ∷ ps) = last_part (q ∷ ps)

-- The text up to and with the last separator.
unfoldable pub dir_prefix : Str → Str
unfolding init_parts
dir_prefix s = join_with 47 (init_parts (split 47 s) ++ ([] ∷ []))

-- filepath.Dir
unfoldable pub dir : Str → Str
unfolding clean dir_prefix
dir s = clean (dir_prefix s)

-- filepath.Ext: the suffix from the last dot of the last element.
unfoldable pub ext_of : List Str → Str
unfolding last_part
ext_of [] = []
ext_of (p ∷ []) = []
ext_of (p ∷ q ∷ ps) = 46 ∷ last_part (q ∷ ps)

unfoldable pub ext : Str → Str
unfolding ext_of last_part
ext s = ext_of (split 46 (last_part (split 47 s)))

-- The components of the file that a path names, from the root; a relative path starts there too.
abbrev pub FilePath : Type 0
FilePath = List Str

unfoldable pub resolve : Str → FilePath
unfolding clean_parts
resolve s = clean_parts true [] (split 47 s)

dir_tests :
    (dir (lit "/etc/x.pem") ≡ lit "/etc")
    × (dir (lit "a") ≡ lit ".")
    × (dir (lit "/a/../b//c") ≡ lit "/b")
    × (dir (lit "/") ≡ lit "/")
    × (ext (lit "/a.d/x.prom") ≡ lit ".prom")
    × (ext (lit "/a.d/x") ≡ lit "")
unfolding dir ext lit split join_with str_eq
dir_tests = (refl, refl, refl, refl, refl, refl)

-- The file that filepath.Join(d, name) names, for a name that is one component.
abbrev pub in_dir : Str → Str → FilePath
in_dir d name = resolve d ++ (name ∷ [])
