-- ===== src/Systemdpaths/Dirs.antt =====
-- The directory lists of cmd/syscert/systemdpaths.go have what they should, once.
use syscert.Base.{
  Bool, true, false, not, ◌||◌, ◌&&◌, ◌≡◌, ◌≢◌, refl, ap, ◌∙◌, List, [], ◌∷◌, ◌++◌, arith,
  Bool-cases, inl, inr,
}
use syscert.Go.Strings.{Str, lit, str_eq, str_eq_iff, is_empty, contains}
use syscert.Go.Sort.{sort, contains-sort, Distinct, sort-Distinct}
use syscert.Config.{Config}
use syscert.Systemdpaths.{
  add_dir, add_dirs, skip_output, wanted_dirs, output_dirs, sort_tail, distribute_dirs,
}

contains-append :
    (ts us : List Str) (x : Str) → contains (ts ++ us) x ≡ (contains ts x || contains us x)
unfolding contains
contains-append [] us x = refl
contains-append (t ∷ ts) us x = ground (arith, contains-append ts us x)

module _ (skip : Str → Bool) where
  contains-add_dir :
      (dirs : List Str) (d x : Str)
      → contains (add_dir skip dirs d) x ≡ (contains dirs x || (str_eq d x && not (skip x)))
  unfolding add_dir contains
  contains-add_dir dirs d x = ground (arith, contains-append dirs (d ∷ []) x, str_eq_iff d x)

  contains-add_dirs :
      (dirs ds : List Str) (x : Str)
      → contains (add_dirs skip dirs ds) x ≡ (contains dirs x || (contains ds x && not (skip x)))
  unfolding contains add_dirs
  contains-add_dirs dirs [] x = ground arith
  contains-add_dirs dirs (d ∷ ds) x =
      ground (arith, contains-add_dirs (add_dir skip dirs d) ds x, contains-add_dir dirs d x)

  Distinct-concat :
      (dirs : List Str) (d : Str)
      → contains dirs d ≡ false
      → Distinct dirs
      → Distinct (dirs ++ (d ∷ []))
  unfolding contains
  Distinct-concat [] d h u = (refl, tt)
  Distinct-concat (t ∷ dirs) d h u = ground (
    arith,
    contains-append dirs (d ∷ []) t,
    str_eq_iff t d,
    str_eq_iff d t,
    Distinct-concat dirs d,
  )

  add_dir-Distinct : (dirs : List Str) (d : Str) → Distinct dirs → Distinct (add_dir skip dirs d)
  unfolding add_dir
  add_dir-Distinct dirs d u = elim (Bool-cases (skip d || contains dirs d)) [
    | inl y ↦ rw y u
    | inr n ↦ rw n (Distinct-concat dirs d (ground arith) u)
  ]

  add_dirs-Distinct : (dirs ds : List Str) → Distinct dirs → Distinct (add_dirs skip dirs ds)
  unfolding add_dirs
  add_dirs-Distinct dirs [] u = u
  add_dirs-Distinct dirs (d ∷ ds) u =
      add_dirs-Distinct (add_dir skip dirs d) ds (add_dir-Distinct dirs d u)

-- The first element stays first where no element comes before it.
abbrev StartsWithIt : Str → List Str → Type 0
StartsWithIt d ds = (rest : List Str) × (ds ≡ d ∷ rest)

add_dirs-first :
    (skip : Str → Bool) (d : Str) (rest ds : List Str)
    → StartsWithIt d (add_dirs skip (d ∷ rest) ds)
unfolding add_dirs add_dir
add_dirs-first skip d rest [] = (rest, refl)
add_dirs-first skip d rest (e ∷ ds) = elim (Bool-cases (skip e || contains (d ∷ rest) e)) [
  | inl y ↦ rw y (add_dirs-first skip d rest ds)
  | inr n ↦ rw n (add_dirs-first skip d (rest ++ (e ∷ [])) ds)
]

contains-sort_tail : (ds : List Str) (x : Str) → contains (sort_tail ds) x ≡ contains ds x
unfolding contains
contains-sort_tail [] x = refl
contains-sort_tail (d ∷ ds) x = ground (arith, contains-sort ds x)

sort_tail-Distinct : (ds : List Str) → Distinct ds → Distinct (sort_tail ds)
sort_tail-Distinct [] u = tt
sort_tail-Distinct (d ∷ ds) u = (contains-sort ds d ∙ u.0, sort-Distinct ds u.1)

-- The directories outside the store are exactly those of the targets and of the configured outputs,
-- without "" and ".", each listed once.
output_dirs_cases :
    (cfg : Config)
    → ((d : Str)
        → contains (output_dirs cfg) d
          ≡ (contains (wanted_dirs cfg) d && not (is_empty d || str_eq d (lit "."))))
      × Distinct (output_dirs cfg)
unfolding output_dirs contains
output_dirs_cases cfg = (
  λ d. contains-add_dirs skip_output [] (wanted_dirs cfg) d,
  add_dirs-Distinct skip_output [] (wanted_dirs cfg) tt,
)

eq-not_empty : (s d : Str) → s ≢ [] → str_eq s d ≡ true → is_empty d ≡ false
unfolding str_eq
eq-not_empty [] d ne h = absurd (ne refl)
eq-not_empty (c ∷ s) [] ne h = cc
eq-not_empty (c ∷ s) (e ∷ d) ne h = refl

store_first :
    (s : Str) (o : List Str) → s ≢ [] → StartsWithIt s (sort_tail (add_dirs is_empty [] (s ∷ o)))
unfolding add_dirs add_dir contains
store_first [] o ne = absurd (ne refl)
store_first (c ∷ s) o ne =
    let (rest, e) = add_dirs-first is_empty (c ∷ s) [] o in (sort rest, ap sort_tail e)

kept :
    (s : Str) (o : List Str) (d : Str)
    → s ≢ []
    → (w : Bool) → contains o d ≡ (w && not (is_empty d || str_eq d (lit ".")))
    → (contains [] d || (contains (s ∷ o) d && not (is_empty d))) ≡ (str_eq s d || contains o d)
unfolding contains
kept s o d ne w e = ground (arith, eq-not_empty s d ne)

-- With a store path, the granted directories are the store and those outside it, each listed once,
-- and the store comes first.
distribute_dirs_cases :
    (cfg : Config)
    → cfg.store.path ≢ []
    → ((d : Str)
        → contains (distribute_dirs cfg) d
          ≡ (str_eq cfg.store.path d || contains (output_dirs cfg) d))
      × Distinct (distribute_dirs cfg)
      × ((rest : List Str) × (distribute_dirs cfg ≡ cfg.store.path ∷ rest))
unfolding distribute_dirs
distribute_dirs_cases cfg ne = (
  λ d. granted d,
  sort_tail-Distinct _ (add_dirs-Distinct is_empty [] (cfg.store.path ∷ output_dirs cfg) tt),
  store_first cfg.store.path (output_dirs cfg) ne,
)
  where
    granted :
        (d : Str)
        → contains (distribute_dirs cfg) d
          ≡ (str_eq cfg.store.path d || contains (output_dirs cfg) d)
    granted d =
        contains-sort_tail (add_dirs is_empty [] (cfg.store.path ∷ output_dirs cfg)) d
        ∙ contains-add_dirs is_empty [] (cfg.store.path ∷ output_dirs cfg) d
        ∙ kept cfg.store.path (output_dirs cfg) d ne _ ((output_dirs_cases cfg).0 d)
