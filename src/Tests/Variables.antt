-- ===== src/Tests/Variables.antt =====
-- Examples of environment files.
use syscert.Base.{◌≡◌, refl, true, false, none, some, List, [], ◌∷◌, if◌then◌else◌}
use syscert.Go.Strings.{Str, lit, str_eq, contains}
use syscert.Envfile.{find, Kv, merge, apply}
use syscert.Envfile.Merge.{last_in_files, find-merge, apply_keeps}

abbrev assign : Str → Str → Kv
assign k v = record { key = k; value = v }

abbrev two_files : List (List Kv)
two_files =
    (assign (lit "A") (lit "1") ∷ assign (lit "A") (lit "2") ∷ [])
    ∷ (assign (lit "B") (lit "3") ∷ [])
    ∷ []

find-merge_example :
    find (lit "A") (merge (λ k. str_eq k (lit "B")) two_files)
    ≡ (if str_eq (lit "A") (lit "B") then none else last_in_files (lit "A") two_files)
find-merge_example = find-merge (λ k. str_eq k (lit "B")) two_files (lit "A")

last_wins_test : find (lit "A") (merge (λ k. false) two_files) ≡ some (lit "2")
unfolding find merge lit str_eq
last_wins_test = refl

apply_keeps_example :
    find (lit "B") (apply (λ _. true) (assign (lit "B") (lit "0") ∷ []) two_files).1
    ≡ find (lit "B") (assign (lit "B") (lit "0") ∷ [])
unfolding contains lit str_eq
apply_keeps_example =
    apply_keeps (λ _. true) (assign (lit "B") (lit "0") ∷ []) two_files (lit "B") refl
