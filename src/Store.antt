-- ===== src/Store.antt =====
-- internal/store/store.go: the five artifacts that a certificate is cut into. `encoding/pem` is a
-- parameter: `decode` gives the first block, re-encoded, and the rest.
pub mod Disk
pub mod Bundle
pub mod Files
pub mod Written
pub mod Dirs
pub mod Placing
pub mod Copies
pub mod Snapped
pub mod Pruned
pub mod Progress
pub mod Archived
pub mod Ready
pub mod Retained
use syscert.Base.{ℕ, zero, suc, Option, none, some, List, [], ◌∷◌, ◌++◌, length, if◌then◌else◌}
use syscert.Go.Strings.{Str, lit, str_eq, contains}
use syscert.Os.{text, Result, ok, err}
use syscert.Atomicfile

abbrev pub cert_file : Str
cert_file = lit "cert.pem"

abbrev pub artifact_names : List Str
artifact_names =
    cert_file ∷ lit "privkey.pem" ∷ lit "chain.pem" ∷ lit "fullchain.pem" ∷ lit "bundle.pem" ∷ []

pub record Material : Type 0 where
  pub certificate : Str
  pub private_key : Str
  pub issuer_certificate : Str
  pub root : Str

pub record Artifact : Type 0 where
  pub name : Str
  pub content : Str
  pub mode : ℕ

abbrev pub Decoder : Type 0
Decoder = Str → Option (Str × Str)

-- The loop of splitLeafChain; each block takes at least one byte, so the length is enough fuel.
unfoldable pub pem_blocks : Decoder → ℕ → Str → List Str
pem_blocks decode zero rest = []
pem_blocks decode (suc f) rest = elim (decode rest) [
  | none ↦ []
  | some (b, rest') ↦ b ∷ pem_blocks decode f rest'
]

unfoldable pub concat : List Str → Str
concat [] = []
concat (b ∷ bs) = b ++ concat bs

unfoldable pub leaf_chain : List Str → Result (Str × Str)
unfolding concat
leaf_chain [] = err (text "no PEM certificate blocks in certificate material" [])
leaf_chain (leaf ∷ rest) = ok (leaf, concat rest)

unfoldable pub split_leaf_chain : Decoder → Str → Result (Str × Str)
unfolding pem_blocks leaf_chain
split_leaf_chain decode fullchain =
    leaf_chain (pem_blocks decode (suc (length fullchain)) fullchain)

-- The part that one token of the order names.
unfoldable pub component : Str → Str → Str → Str → Str → Str
component leaf chain root key tok =
    if str_eq tok (lit "cert")
    then leaf
    else if str_eq tok (lit "chain")
    then chain
    else if str_eq tok (lit "root")
    then root
    else if str_eq tok (lit "key")
    then key
    else []

unfoldable pub assemble_bundle : List Str → Str → Str → Str → Str → Str
unfolding component
assemble_bundle [] leaf chain root key = []
assemble_bundle (tok ∷ toks) leaf chain root key =
    component leaf chain root key tok ++ assemble_bundle toks leaf chain root key

unfoldable pub artifacts : Material → List Str → Str × Str → List Artifact
unfolding assemble_bundle
artifacts m order (leaf, chain) =
    record { name = cert_file; content = leaf; mode = 0o644 }
    ∷ record { name = lit "privkey.pem"; content = m.private_key; mode = 0o600 }
    ∷ record { name = lit "chain.pem"; content = chain; mode = 0o644 }
    ∷ record { name = lit "fullchain.pem"; content = leaf ++ chain; mode = 0o644 }
    ∷ record {
      name = lit "bundle.pem";
      content = assemble_bundle order leaf chain m.root m.private_key;
      mode = if contains order (lit "key") then 0o600 else 0o644;
    }
    ∷ []

unfoldable pub build : Decoder → Material → List Str → Result (List Artifact)
unfolding split_leaf_chain artifacts
build decode m order = elim (split_leaf_chain decode m.certificate) [
  | err e ↦ err e
  | ok parts ↦ ok (artifacts m order parts)
]
