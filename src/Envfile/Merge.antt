-- ===== src/Envfile/Merge.antt =====
-- Which value a variable gets, internal/envfile/envfile.go.
use syscert.Base.{
  ℕ, ◌≡◌, ◌≢◌, refl, sym, ap, ◌∙◌, Bool, true, false, Bool-cases, inl, inr, Option, none, some,
  List, [], ◌∷◌, ◌++◌, if◌then◌else◌, arith,
}
use syscert.Go.Strings.{Str, str_eq, str_eq_iff, contains}
use syscert.Envfile.{
  find, Kv, put, merge_lines, merge_files, merge, drop_last, unquote, set_all, apply, keys,
}

abbrev pub or_else : Option Str → Option Str → Option Str
or_else none o = o
or_else (some v) o = some v

-- The value that is written last.
abbrev pub last_value : Str → List Kv → Option Str
last_value k [] = none
last_value k (kv ∷ kvs) =
    or_else (last_value k kvs) (if str_eq kv.key k then some kv.value else none)

abbrev pub last_in_files : Str → List (List Kv) → Option Str
last_in_files k [] = none
last_in_files k (kvs ∷ files) = or_else (last_in_files k files) (last_value k kvs)

find-put :
    (k : Str) (out : List Kv) (kv : Kv)
    → find k (put out kv) ≡ (if str_eq kv.key k then some kv.value else find k out)
unfolding find put
find-put k [] kv = refl
find-put k (o ∷ out) kv =
    ground
      (arith, find-put k out kv, str_eq_iff o.key kv.key, str_eq_iff o.key k, str_eq_iff kv.key k)

or_else_assoc : (a b c : Option Str) → or_else a (or_else b c) ≡ or_else (or_else a b) c
or_else_assoc none b c = refl
or_else_assoc (some v) b c = refl

module _ (preset : Str → Bool) (k : Str) where
  abbrev step : List Kv → Kv → List Kv
  step out kv = if preset kv.key then out else put out kv

  find-step_preset : (out : List Kv) (kv : Kv) → preset k ≡ true → find k (step out kv) ≡ find k out
  find-step_preset out kv h = elim (Bool-cases (preset kv.key)) [
    | inl y ↦ rw y refl
    | inr n ↦ rw n (ground (arith, find-put k out kv, str_eq_iff kv.key k))
  ]

  find-step :
      (out : List Kv) (kv : Kv)
      → preset k ≡ false
      → find k (step out kv)
        ≡ or_else (if str_eq kv.key k then some kv.value else none) (find k out)
  find-step out kv h = elim (Bool-cases (preset kv.key)) [
    | inl y ↦ rw y (ground (arith, str_eq_iff kv.key k))
    | inr n ↦ rw n (ground (arith, find-put k out kv))
  ]

  find-merge_lines_preset :
      (out kvs : List Kv) → preset k ≡ true → find k (merge_lines preset out kvs) ≡ find k out
  unfolding merge_lines
  find-merge_lines_preset out [] h = refl
  find-merge_lines_preset out (kv ∷ kvs) h =
      find-merge_lines_preset (step out kv) kvs h ∙ find-step_preset out kv h

  find-merge_lines :
      (out kvs : List Kv)
      → preset k ≡ false
      → find k (merge_lines preset out kvs) ≡ or_else (last_value k kvs) (find k out)
  unfolding merge_lines
  find-merge_lines out [] h = refl
  find-merge_lines out (kv ∷ kvs) h =
      find-merge_lines (step out kv) kvs h
      ∙ ap (or_else (last_value k kvs)) (find-step out kv h)
      ∙ or_else_assoc (last_value k kvs) (if str_eq kv.key k then some kv.value else none)
          (find k out)

  find-merge_files_preset :
      (out : List Kv) (files : List (List Kv))
      → preset k ≡ true
      → find k (merge_files preset out files) ≡ find k out
  unfolding merge_files
  find-merge_files_preset out [] h = refl
  find-merge_files_preset out (kvs ∷ files) h =
      find-merge_files_preset (merge_lines preset out kvs) files h
      ∙ find-merge_lines_preset out kvs h

  find-merge_files :
      (out : List Kv) (files : List (List Kv))
      → preset k ≡ false
      → find k (merge_files preset out files) ≡ or_else (last_in_files k files) (find k out)
  unfolding merge_files
  find-merge_files out [] h = refl
  find-merge_files out (kvs ∷ files) h =
      find-merge_files (merge_lines preset out kvs) files h
      ∙ ap (or_else (last_in_files k files)) (find-merge_lines out kvs h)
      ∙ or_else_assoc (last_in_files k files) (last_value k kvs) (find k out)

or_else-none : (o : Option Str) → or_else o none ≡ o
or_else-none none = refl
or_else-none (some v) = refl

-- A variable that the environment has is not set; any other gets the value that the files write
-- last, the later file winning, and none if they do not name it.
pub find-merge :
    (preset : Str → Bool) (files : List (List Kv)) (k : Str)
    → find k (merge preset files) ≡ (if preset k then none else last_in_files k files)
unfolding merge find
find-merge preset files k = elim (Bool-cases (preset k)) [
  | inl y ↦ rw y (find-merge_files_preset preset k [] files y)
  | inr n ↦ rw n (find-merge_files preset k [] files n ∙ or_else-none (last_in_files k files))
]

drop_last-append : (q : ℕ) (v : Str) → drop_last q (v ++ (q ∷ [])) ≡ some v
unfolding drop_last
drop_last-append q [] = ground arith
drop_last-append q (c ∷ []) = ground (arith, drop_last-append q [])
drop_last-append q (c ∷ d ∷ v) = rw (drop_last-append q (d ∷ v)) refl

-- A text between two double or two single quotes is read as itself, whatever is in it.
unquote-quoted :
    (v : Str) → (unquote (34 ∷ (v ++ (34 ∷ []))) ≡ v) × (unquote (39 ∷ (v ++ (39 ∷ []))) ≡ v)
unfolding unquote
unquote-quoted v = (rw (drop_last-append 34 v) refl, rw (drop_last-append 39 v) refl)

find-cons_none :
    (k : Str) (kv : Kv) (kvs : List Kv)
    → find k (kv ∷ kvs) ≡ none
    → (str_eq kv.key k ≡ false) × (find k kvs ≡ none)
unfolding find
find-cons_none k kv kvs h = elim (Bool-cases (str_eq kv.key k)) [
  | inl y ↦ absurd (some-ne-none (sym (ap (λ b. if b then some kv.value else find k kvs) y) ∙ h))
  | inr n ↦ (n, sym (ap (λ b. if b then some kv.value else find k kvs) n) ∙ h)
]
  where
    some-ne-none : some kv.value ≢ none
    some-ne-none e = cc e

find-set_all :
    (settable : Kv → Bool) (k : Str) (kvs env : List Kv)
    → find k kvs ≡ none
    → find k (set_all settable kvs env).1 ≡ find k env
unfolding set_all find
find-set_all settable k [] env h = refl
find-set_all settable k (kv ∷ kvs) env h =
    let (other, rest) = find-cons_none k kv kvs h in
    elim (Bool-cases (settable kv)) [
      | inl y ↦ rw y (
          find-set_all settable k kvs (put env kv) rest
          ∙ find-put k env kv
          ∙ ap (λ b. if b then some kv.value else find k env) other)
      | inr n ↦ rw n refl
    ]

-- Loading files never changes a variable that the environment has, whatever the files say and
-- wherever the setting stops.
pub apply_keeps :
    (settable : Kv → Bool) (env : List Kv) (files : List (List Kv)) (k : Str)
    → contains (keys env) k ≡ true
    → find k (apply settable env files).1 ≡ find k env
unfolding apply
apply_keeps settable env files k h =
    find-set_all settable k (merge (contains (keys env)) files) env (
      find-merge (contains (keys env)) files k
      ∙ ap (λ b. if b then none else last_in_files k files) h)
