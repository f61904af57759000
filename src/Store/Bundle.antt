-- ===== src/Store/Bundle.antt =====
-- The contents and modes of the artifacts of internal/store/store.go.
use syscert.Base.{
  ℕ, zero, suc, ◌<◌, ◌⊎◌, inl, inr, ◌≡◌, refl, ap, ap₂, Bool, true, false, Option, none, some, List,
  [], ◌∷◌, ◌++◌, arith, length, if◌then◌else◌,
}
use syscert.Go.Strings.{Str, lit, str_eq, contains}
use syscert.Os.{Result, ok, err}
use syscert.Store.{
  Material, Artifact, Decoder, pem_blocks, concat, split_leaf_chain, component, assemble_bundle,
  artifacts, build,
}

-- Each block takes at least one byte of the text.
abbrev pub Shrinks : Decoder → Type 0
Shrinks decode = (s b r : Str) → decode s ≡ some (b, r) → length r < length s

-- For a decoder whose blocks each take at least one byte, any two amounts of fuel above the number
-- of bytes give the same blocks.
pub pem_blocks-fuel :
    (decode : Decoder) (f g : ℕ) (s : Str)
    → Shrinks decode
    → length s < f
    → length s < g
    → pem_blocks decode f s ≡ pem_blocks decode g s
unfolding pem_blocks
pem_blocks-fuel decode zero g s sh h k = absurd (omega arith)
pem_blocks-fuel decode (suc f) zero s sh h k = absurd (omega arith)
pem_blocks-fuel decode (suc f) (suc g) s sh h k =
    same (decode s) (sh s) (λ r less. pem_blocks-fuel decode f g r sh (omega arith) (omega arith))
  where
    same :
        (o : Option (Str × Str))
        → ((b r : Str) → o ≡ some (b, r) → length r < length s)
        → ((r : Str) → length r < length s → pem_blocks decode f r ≡ pem_blocks decode g r)
        → ◌≡◌ {A = List Str}
            (elim o [ none ↦ [] | some (b, r) ↦ b ∷ pem_blocks decode f r ])
            (elim o [ none ↦ [] | some (b, r) ↦ b ∷ pem_blocks decode g r ])
    same none q again = refl
    same (some (b, r)) q again = ap (◌∷◌ b) (again r (q b r refl))

-- What is equal in two builds that differ in the private key: the name and the mode of each artifact,
-- and the content of each that others may read.
abbrev pub Alike : List Artifact → List Artifact → Type 0
Alike [] [] = Unit
Alike [] (b ∷ bs) = ⊥
Alike (a ∷ as') [] = ⊥
Alike (a ∷ as') (b ∷ bs) =
    (a.name ≡ b.name)
    × (a.mode ≡ b.mode)
    × ((a.mode ≡ 0o600) ⊎ (a.content ≡ b.content))
    × Alike as' bs

abbrev pub AlikeResults : Result (List Artifact) → Result (List Artifact) → Type 0
AlikeResults (ok xs) (ok ys) = Alike xs ys
AlikeResults (err d) (err e) = d ≡ e
AlikeResults _ _ = ⊥

component-key :
    (leaf chain root k1 k2 tok : Str)
    → str_eq tok (lit "key") ≡ false
    → component leaf chain root k1 tok ≡ component leaf chain root k2 tok
unfolding component
component-key leaf chain root k1 k2 tok h = ground arith

assemble_bundle-key :
    (order : List Str) (leaf chain root k1 k2 : Str)
    → contains order (lit "key") ≡ false
    → assemble_bundle order leaf chain root k1 ≡ assemble_bundle order leaf chain root k2
unfolding assemble_bundle contains
assemble_bundle-key [] leaf chain root k1 k2 h = refl
assemble_bundle-key (tok ∷ toks) leaf chain root k1 k2 h =
    ap₂ ◌++◌ (component-key leaf chain root k1 k2 tok (ground arith))
      (assemble_bundle-key toks leaf chain root k1 k2 (ground arith))

-- Only artifacts of mode 0600 depend on the private key: whatever the order of the bundle, two builds
-- from materials that differ in the key give artifacts of the same names and modes, and equal contents
-- wherever the mode is not 0600.
pub build_confines_key :
    (decode : Decoder) (m : Material) (key : Str) (order : List Str)
    → AlikeResults (build decode m order) (build decode (record m { private_key = key }) order)
unfolding build
build_confines_key decode m key order = both (split_leaf_chain decode m.certificate)
  where
    bundle :
        (leaf chain : Str) (b : Bool)
        → contains order (lit "key") ≡ b
        → (◌≡◌ {A = ℕ} (if b then 0o600 else 0o644) 0o600)
          ⊎ (assemble_bundle order leaf chain m.root m.private_key
              ≡ assemble_bundle order leaf chain m.root key)
    bundle leaf chain true e = inl refl
    bundle leaf chain false e =
        inr (assemble_bundle-key order leaf chain m.root m.private_key key e)

    both :
        (r : Result (Str × Str))
        → AlikeResults
            (elim r [ err e ↦ err e | ok parts ↦ ok (artifacts m order parts) ])
            (elim r [
              | err e ↦ err e
              | ok parts ↦ ok (artifacts (record m { private_key = key }) order parts)
            ])
    both (err e) = refl
    both (ok (leaf, chain)) = (
      refl,
      refl,
      inr refl,
      (
        refl,
        refl,
        inl refl,
        (refl, refl, inr refl, (refl, refl, inr refl, (refl, refl, bundle leaf chain _ refl, tt))),
      ),
    )

-- What the five files of a build hold, for a leaf and the blocks after it.
abbrev pub contents : Material → List Str → Str → List Str → List (Str × Str)
contents m order b bs =
    (lit "cert.pem", b)
    ∷ (lit "privkey.pem", m.private_key)
    ∷ (lit "chain.pem", concat bs)
    ∷ (lit "fullchain.pem", b ++ concat bs)
    ∷ (lit "bundle.pem", assemble_bundle order b (concat bs) m.root m.private_key)
    ∷ []
