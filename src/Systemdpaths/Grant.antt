-- ===== src/Systemdpaths/Grant.antt =====
-- What the generated drop-in of cmd/syscert/systemdpaths.go grants.
use Prim.Native.String.{String}
use syscert.Base.{
  ℕ, ◌<◌, ◌⊎◌, inl, inr, true, false, Bool, not, ◌&&◌, ◌||◌, ◌↔◌, ◌≡◌, ◌≢◌, refl, ap, sym, subst,
  ◌∙◌, Option, none, some, List, [], ◌∷◌, ◌++◌, map, arith, if◌then◌else◌, Bool-cases, All,
  All-append,
}
use syscert.Go.Strings.{Str, lit, contains, str_eq, str_eq_iff, split, has_byte}
use syscert.Systemdpaths.Safe.{IsSafe, unsafe-none_iff}
use syscert.Systemdpaths.{
  unsafe_grant_dir, refuse, place_dir, partition_grant_dirs, header_lines, grant_line, write_lines,
  drop_in_content,
}

abbrev no_reason : Option String → Bool
no_reason none = true
no_reason (some why) = false

-- The directories that may be granted: the store, and those with no reason against them.
unfoldable pub grantable : Str → List Str → List Str
grantable store [] = []
grantable store (d ∷ ds) =
    let rest = grantable store ds in
    if str_eq d store || no_reason (unsafe_grant_dir d) then d ∷ rest else rest

-- The reason that a map of refusals has for a directory.
unfoldable pub refusal : Str → List (Str × String) → Option String
refusal e [] = none
refusal e ((k, why) ∷ rs) = let rest = refusal e rs in if str_eq k e then some why else rest

abbrev verdict : Str → Str → Option String
verdict store d = if str_eq d store then none else unsafe_grant_dir d

refusal-refuse :
    (e d : Str) (why : String) (rs : List (Str × String))
    → refusal e (refuse d why rs) ≡ (if str_eq d e then some why else refusal e rs)
unfolding refusal refuse
refusal-refuse e d why [] = refl
refusal-refuse e d why ((k, w) ∷ rs) = elim (Bool-cases (str_eq k d)) [
  | inl y ↦
      let same : str_eq k e ≡ str_eq d e = ap (λ x. str_eq x e) ((str_eq_iff k d).0 y) in
      ground arith
  | inr n ↦
      let again = refusal-refuse e d why rs in
      let apart : str_eq k e ≡ true → str_eq d e ≡ true → str_eq k d ≡ true =
        λ a b. (str_eq_iff k d).1 ((str_eq_iff k e).0 a ∙ sym ((str_eq_iff d e).0 b)) in
      ground (arith, apart)
]

granted_dirs :
    (ds : List Str) (store : Str) → (partition_grant_dirs ds store).0 ≡ grantable store ds
unfolding partition_grant_dirs grantable place_dir
granted_dirs [] store = refl
granted_dirs (d ∷ ds) store =
    go (str_eq d store) (unsafe_grant_dir d) (partition_grant_dirs ds store) (granted_dirs ds store)
  where
    go :
        (b : Bool) (u : Option String) (rest : List Str × List (Str × String))
        → rest.0 ≡ grantable store ds
        → (place_dir d (if b then none else u) rest).0
          ≡ (if b || no_reason u then d ∷ grantable store ds else grantable store ds)
    go true u rest h = ap (◌∷◌ d) h
    go false none rest h = ap (◌∷◌ d) h
    go false (some why) rest h = h

refused_dirs :
    (ds : List Str) (store e : Str)
    → refusal e (partition_grant_dirs ds store).1
      ≡ (if contains ds e then verdict store e else none)
unfolding partition_grant_dirs contains place_dir refusal
refused_dirs [] store e = refl
refused_dirs (d ∷ ds) store e =
    go (verdict store d) (λ y. ap (verdict store) ((str_eq_iff d e).0 y))
      (partition_grant_dirs ds store) (refused_dirs ds store e)
  where
    go :
        (u : Option String)
        → (str_eq d e ≡ true → u ≡ verdict store e)
        → (rest : List Str × List (Str × String))
        → refusal e rest.1 ≡ (if contains ds e then verdict store e else none)
        → refusal e (place_dir d u rest).1
          ≡ (if str_eq d e || contains ds e then verdict store e else none)
    go none f rest h = elim (Bool-cases (str_eq d e)) [
      | inl y ↦ let same = f y in ground arith
      | inr n ↦ ground arith
    ]
    go (some why) f rest h = elim (Bool-cases (str_eq d e)) [
      | inl y ↦ let same = f y in let put = refusal-refuse e d why rest.1 in ground arith
      | inr n ↦ let put = refusal-refuse e d why rest.1 in ground arith
    ]

-- The directories that are granted are, in order, the store and those with no reason against them; a
-- directory is in the map of the refusals, with the reason against it, exactly if it is one of the
-- given ones, is not the store and has a reason; and there is none exactly for a directory with an
-- absolute path of printing bytes other than blanks, below the top level.
pub partition_cases :
    (ds : List Str) (store e : Str)
    → ((partition_grant_dirs ds store).0 ≡ grantable store ds)
      × (refusal e (partition_grant_dirs ds store).1
          ≡ (if contains ds e && not (str_eq e store) then unsafe_grant_dir e else none))
      × ((unsafe_grant_dir e ≡ none) ↔ IsSafe e)
partition_cases ds store e = (
  granted_dirs ds store,
  refused_dirs ds store e ∙ one (contains ds e) (str_eq e store),
  unsafe-none_iff e,
)
  where
    one :
        (a b : Bool)
        → (if a then (if b then none else unsafe_grant_dir e) else none)
          ≡ (if a && not b then unsafe_grant_dir e else none)
    one true true = refl
    one true false = refl
    one false b = refl

abbrev Granted : Str → Str → Type 0
Granted store d = (d ≡ store) ⊎ IsSafe d

grantable-Granted : (ds : List Str) (store : Str) → All (Granted store) (grantable store ds)
unfolding grantable
grantable-Granted [] store = tt
grantable-Granted (d ∷ ds) store =
    go (str_eq d store) (str_eq_iff d store).0 (unsafe_grant_dir d) (unsafe-none_iff d).0
      (grantable-Granted ds store)
  where
    go :
        (b : Bool)
        → (b ≡ true → d ≡ store)
        → (u : Option String) → (u ≡ none → IsSafe d)
        → All (Granted store) (grantable store ds)
        → All
            (Granted store)
            (if b || no_reason u then d ∷ grantable store ds else grantable store ds)
    go true f u g h = (inl (f refl), h)
    go false f none g h = (inr (g refl), h)
    go false f (some why) g h = h

-- Every granted directory is the store or safe.
pub partition-Granted :
    (ds : List Str) (store : Str)
    → All (λ d. (d ≡ store) ⊎ IsSafe d) (partition_grant_dirs ds store).0
partition-Granted ds store =
    subst (All (Granted store)) (sym (granted_dirs ds store)) (grantable-Granted ds store)

newline_free : (d : Str) → All (λ c. (32 < c) × (c ≢ 127)) d → has_byte 10 d ≡ false
unfolding has_byte
newline_free [] h = refl
newline_free (c ∷ d) h = ground (arith, newline_free d h.1)

split-line :
    (l rest : Str) → has_byte 10 l ≡ false → split 10 (l ++ (10 ∷ rest)) ≡ l ∷ split 10 rest
unfolding split has_byte
split-line [] rest h = refl
split-line (c ∷ l) rest h = ground (arith, split-line l rest)

split-write_lines :
    (ls : List Str)
    → All (λ l. has_byte 10 l ≡ false) ls
    → split 10 (write_lines ls) ≡ ls ++ ([] ∷ [])
unfolding write_lines split
split-write_lines [] h = refl
split-write_lines (l ∷ ls) h =
    split-line l (write_lines ls) h.0 ∙ ap (◌∷◌ l) (split-write_lines ls h.1)

has_byte-append :
    (b : ℕ) (s t : Str) → has_byte b s ≡ false → has_byte b t ≡ false → has_byte b (s ++ t) ≡ false
unfolding has_byte
has_byte-append b [] t h k = k
has_byte-append b (c ∷ s) t h k = ground (arith, has_byte-append b s t)

header_free : All (λ l. has_byte 10 l ≡ false) header_lines
unfolding has_byte lit
header_free = (refl, (refl, (refl, (refl, (refl, (refl, tt))))))

prefix_free : has_byte 10 (lit "ReadWritePaths=") ≡ false
unfolding has_byte lit
prefix_free = refl

grants_free :
    (store : Str) (ds : List Str)
    → has_byte 10 store ≡ false
    → All (Granted store) ds
    → All (λ l. has_byte 10 l ≡ false) (map grant_line ds)
grants_free store [] h a = tt
grants_free store (d ∷ ds) h a =
    (has_byte-append 10 _ d prefix_free (free a.0), grants_free store ds h a.1)
  where
    free : Granted store d → has_byte 10 d ≡ false
    free (inl e) = subst (λ x. has_byte 10 x ≡ false) (sym e) h
    free (inr g) = newline_free d g.printing

-- The drop-in for the granted directories has exactly the fixed lines and one grant for each of them:
-- no configured path adds a line of its own, if the store's path has no newline.
pub drop_in_lines :
    (ds : List Str) (store : Str)
    → has_byte 10 store ≡ false
    → split 10 (drop_in_content (partition_grant_dirs ds store).0)
      ≡ (header_lines ++ map grant_line (partition_grant_dirs ds store).0) ++ ([] ∷ [])
unfolding drop_in_content
drop_in_lines ds store h =
    split-write_lines (header_lines ++ map grant_line (partition_grant_dirs ds store).0) (
      All-append (λ l. has_byte 10 l ≡ false) header_lines
        (map grant_line (partition_grant_dirs ds store).0) header_free
        (grants_free store (partition_grant_dirs ds store).0 h (partition-Granted ds store)))
