-- ===== src/Systemdpaths.antt =====
-- cmd/syscert/systemdpaths.go: the directories that the sandboxed service may write, and the drop-in
-- that grants them.
pub mod Dirs
pub mod Safe
pub mod Grant
use Prim.Native.String.{String}
use syscert.Base.{
  ℕ, Bool, false, not, ◌||◌, Option, none, some, List, [], ◌∷◌, ◌++◌, map, length, ltb, ◌==◌,
  if◌then◌else◌,
}
use syscert.Go.Strings.{Str, lit, str_eq, is_empty, contains, split, trim}
use syscert.Go.Filepath.{dir, is_abs}
use syscert.Go.Sort.{sort}
use syscert.Config.{Config, DistributeTarget}

-- The closure `add` of distributeDirs and outputDirs, which keeps `dirs` and its set `seen` alike.
unfoldable pub add_dir : (Str → Bool) → List Str → Str → List Str
add_dir skip dirs d = if skip d || contains dirs d then dirs else dirs ++ (d ∷ [])

unfoldable pub add_dirs : (Str → Bool) → List Str → List Str → List Str
unfolding add_dir
add_dirs skip dirs [] = dirs
add_dirs skip dirs (d ∷ ds) = add_dirs skip (add_dir skip dirs d) ds

unfoldable pub skip_output : Str → Bool
skip_output d = is_empty d || str_eq d (lit ".")

abbrev target_dirs : List DistributeTarget → List Str
target_dirs [] = []
target_dirs (t ∷ ts) = dir t.path ∷ target_dirs ts

-- `if p != "" { add(filepath.Dir(p)) }`
abbrev observe_dirs : List Str → List Str
observe_dirs [] = []
observe_dirs (p ∷ ps) = if is_empty p then observe_dirs ps else dir p ∷ observe_dirs ps

-- What outputDirs adds, in order.
abbrev pub wanted_dirs : Config → List Str
wanted_dirs cfg =
    target_dirs cfg.distribute
    ++ observe_dirs (cfg.observe.metrics_file ∷ cfg.observe.ansible_facts_file ∷ [])

unfoldable pub output_dirs : Config → List Str
unfolding add_dirs skip_output
output_dirs cfg = add_dirs skip_output [] (wanted_dirs cfg)

-- sort.Strings(dirs[1:])
abbrev pub sort_tail : List Str → List Str
sort_tail [] = []
sort_tail (d ∷ ds) = d ∷ sort ds

unfoldable pub distribute_dirs : Config → List Str
unfolding add_dirs sort output_dirs
distribute_dirs cfg = sort_tail (add_dirs is_empty [] (cfg.store.path ∷ output_dirs cfg))

unfoldable pub is_blank : ℕ → Bool
is_blank c = c == 32 || (c == 9 || (c == 13 || c == 10))

unfoldable pub is_control : ℕ → Bool
is_control c = ltb c 32 || c == 127

unfoldable pub has_any : (ℕ → Bool) → Str → Bool
has_any p [] = false
has_any p (c ∷ s) = p c || has_any p s

-- Why a directory must not be granted; `none` is "".
unfoldable pub unsafe_grant_dir : Str → Option String
unfolding has_any is_blank is_control
unsafe_grant_dir d =
    if not (is_abs d)
    then some "not an absolute path"
    else if has_any is_blank d
    then some "contains whitespace, which systemd treats as a separator"
    else if has_any is_control d
    then some "contains a control character"
    else if ltb (length (split 47 (trim (λ c. c == 47) d))) 2
    then some "too broad — a whole top-level directory"
    else none

-- The map of the refusals, as a list with one entry for each directory.
unfoldable pub refuse : Str → String → List (Str × String) → List (Str × String)
refuse d why [] = (d, why) ∷ []
refuse d why ((k, w) ∷ rs) =
    let rest = refuse d why rs in if str_eq k d then (d, why) ∷ rs else (k, w) ∷ rest

-- What one directory adds.
unfoldable pub place_dir :
    Str → Option String → List Str × List (Str × String) → List Str × List (Str × String)
unfolding refuse
place_dir d none rest = (d ∷ rest.0, rest.1)
place_dir d (some why) rest = (rest.0, refuse d why rest.1)

unfoldable pub partition_grant_dirs : List Str → Str → List Str × List (Str × String)
unfolding unsafe_grant_dir place_dir
partition_grant_dirs [] store = ([], [])
partition_grant_dirs (d ∷ ds) store =
    let rest = partition_grant_dirs ds store in
    place_dir d (if str_eq d store then none else unsafe_grant_dir d) rest

abbrev pub header_lines : List Str
header_lines =
    lit "# Generated by 'syscert systemd-paths' — do not edit."
    ∷ lit "# ProtectSystem=strict makes the filesystem read-only, so every directory"
    ∷ lit "# syscert writes to must be granted here: the store, each [[distribute]]"
    ∷ lit "# target's directory, and any [observe] output directory. Re-run after"
    ∷ lit "# changing any of those in syscert.toml."
    ∷ lit "[Service]"
    ∷ []

abbrev pub grant_line : Str → Str
grant_line d = lit "ReadWritePaths=" ++ d

-- Each line with its newline.
unfoldable pub write_lines : List Str → Str
write_lines [] = []
write_lines (l ∷ ls) = l ++ (10 ∷ write_lines ls)

unfoldable pub drop_in_content : List Str → Str
unfolding write_lines
drop_in_content dirs = write_lines (header_lines ++ map grant_line dirs)
