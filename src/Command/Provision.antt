-- ===== src/Command/Provision.antt =====
-- What the provisioning pipeline of cmd/syscert/common.go leaves on the disk.
use syscert.Base.{inl, inr, All, Any, ◌≡◌, ◌≢◌, refl, ap, subst, Bool, List, false}
use syscert.Go.Strings.{Str, lit, str_eq, str_ne, has_prefix}
use syscert.Os.{Result, ok, err, Sys}
use syscert.Os.Triples.{Triple, Triple-bind, Triple-pure, Triple-raise, Triple-also, Outcome}
use syscert.Os.Holds.{ok_inj, Anything, Ensures-nothing}
use syscert.Config.{Config}
use syscert.Store.{artifact_names, Artifact, Decoder, Material, artifacts, build, split_leaf_chain}
use syscert.Store.Written.{Stored, AreNames, write-Ensures}
use syscert.Acme.{Obtained, obtain}
use syscert.Command.{Runtime, provision, eab_hmac, material, lift}

-- The certificate that the CA gave, cut into artifacts, is what the files of the store hold.
pub record IsProvisioned (w : Runtime) (cfg : Config) (subject : Str) (staging : Bool) (s : Sys)
    (arts : List Artifact) (t : Sys) : Type 0 where
  pub res : Obtained
  pub obtained : (obtain w.obtainer cfg subject staging (eab_hmac w) s).0 ≡ ok res
  pub built : build w.decoder (material res) cfg.bundle.order ≡ ok arts
  pub stored : Stored cfg.store.path arts t

artifacts-AreNames :
    (m : Material) (order : List Str) (parts : Str × Str) → AreNames (artifacts m order parts)
unfolding artifacts has_prefix lit str_eq
artifacts-AreNames m order (leaf, chain) = (
  refl,
  (ne _ _ refl, (ne _ _ refl, (ne _ _ refl, (ne _ _ refl, tt)))),
  (
    refl,
    (ne _ _ refl, (ne _ _ refl, (ne _ _ refl, tt))),
    (refl, (ne _ _ refl, (ne _ _ refl, tt)), (refl, (ne _ _ refl, tt), (refl, tt, tt))),
  ),
)
  where
    ne : (a b : Str) → str_eq a b ≡ false → a ≢ b
    ne a b h = str_ne a b h

-- A build has an artifact for each of the names.
pub build-names :
    (decode : Decoder) (m : Material) (order : List Str) (arts : List Artifact)
    → build decode m order ≡ ok arts
    → All (λ name. Any (λ a. a.name ≡ name) arts) artifact_names
unfolding build artifacts
build-names decode m order arts = go (split_leaf_chain decode m.certificate)
  where
    go :
        (r : Result (Str × Str))
        → (elim r as (λ _. Result (List Artifact)) [
          | err e ↦ err e
          | ok parts ↦ ok (artifacts m order parts)
        ])
          ≡ ok arts
        → All (λ name. Any (λ a. a.name ≡ name) arts) artifact_names
    go (err e) h = cc h
    go (ok (leaf, chain)) h =
        subst (λ xs. All (λ name. Any (λ a. a.name ≡ name) xs) artifact_names) (ok_inj h)
          (
            inl refl,
            (
              inr (inl refl),
              (
                inr (inr (inl refl)),
                (inr (inr (inr (inl refl))), (inr (inr (inr (inr (inl refl)))), tt)),
              ),
            ),
          )

-- What holds of the names holds of those of each build.
pub build-All :
    (P : Str → Type 0) (decode : Decoder) (m : Material) (order : List Str) (arts : List Artifact)
    → build decode m order ≡ ok arts
    → All P artifact_names
    → All (λ a. P a.name) arts
unfolding build artifacts
build-All P decode m order arts h (p1, (p2, (p3, (p4, (p5, p6))))) =
    go (split_leaf_chain decode m.certificate) h
  where
    go :
        (r : Result (Str × Str))
        → (elim r as (λ _. Result (List Artifact)) [
          | err e ↦ err e
          | ok parts ↦ ok (artifacts m order parts)
        ])
          ≡ ok arts
        → All (λ a. P a.name) arts
    go (err e) h = cc h
    go (ok (leaf, chain)) h =
        subst (λ xs. All (λ a. P a.name) xs) (ok_inj h) (p1, (p2, (p3, (p4, (p5, tt)))))

pub build-AreNames :
    (decode : Decoder) (m : Material) (order : List Str) (arts : List Artifact)
    → build decode m order ≡ ok arts
    → AreNames arts
unfolding build
build-AreNames decode m order arts = go (split_leaf_chain decode m.certificate)
  where
    go :
        (r : Result (Str × Str))
        → (elim r as (λ _. Result (List Artifact)) [
          | err e ↦ err e
          | ok parts ↦ ok (artifacts m order parts)
        ])
          ≡ ok arts
        → AreNames arts
    go (err e) h = cc h
    go (ok parts) h = subst AreNames (ok_inj h) (artifacts-AreNames m order parts)

module _ (w : Runtime) (cfg : Config) (subject : Str) (staging : Bool) (s : Sys) where
  abbrev Given : Obtained → Type 0
  Given res = (obtain w.obtainer cfg subject staging (eab_hmac w) s).0 ≡ ok res

  abbrev Built : Obtained → List Artifact → Type 0
  Built res arts = build w.decoder (material res) cfg.bundle.order ≡ ok arts

  obtain-Given :
      Triple
        (λ x. x ≡ s)
        (obtain w.obtainer cfg subject staging (eab_hmac w))
        (λ res _. Given res × Unit {0})
        Anything
  obtain-Given = record {
    at = λ x e. rw e (go (obtain w.obtainer cfg subject staging (eab_hmac w) s) (λ res h. h));
  }
    where
      go :
          (r : Result Obtained × Sys)
          → ((res : Obtained) → r.0 ≡ ok res → Given res)
          → Outcome (λ res _. Given res × Unit {0}) Anything r.0 r.1
      go (ok res, t) f = (f res refl, tt)
      go (err e, t) f = tt

  lift-built :
      (res : Obtained)
      → Triple Anything
          (lift (build w.decoder (material res) cfg.bundle.order))
          (λ arts _. (build w.decoder (material res) cfg.bundle.order ≡ ok arts) × Unit {0})
          Anything
  lift-built res = go (build w.decoder (material res) cfg.bundle.order)
    where
      go :
          (r : Result (List Artifact))
          → Triple Anything (lift r) (λ arts _. (r ≡ ok arts) × Unit {0}) Anything
      go (ok arts) = Triple-pure arts (λ s h. (refl, tt))
      go (err e) = Triple-raise e (λ s h. tt)

  steps :
      Triple
        (λ x. x ≡ s)
        (provision w cfg subject staging)
        (IsProvisioned w cfg subject staging s)
        Anything
  unfolding provision
  steps = Triple-bind _ _ obtain-Given λ res.
      Triple-bind _ _ (Triple-also (Given res) _ (λ _. lift-built res)) λ arts.
        Triple-bind _ _
          (Triple-also (Given res) _ (λ _. Triple-also (Built res arts) _ (λ _. Ensures-nothing _)))
          λ _.
            Triple-bind _ _
              (Triple-also (Given res) _ (λ _.
                Triple-also (Built res arts) _
                  (λ b. write-Ensures cfg.store.path arts _ (build-AreNames _ _ _ arts b))))
              λ _.
                Triple-pure arts
                  (λ t h. record { res = res; obtained = h.0; built = h.1.0; stored = h.1.1 })

-- Whatever calls fail: if the pipeline returns artifacts, they are those built of what the CA gave,
-- and each artifact's file in the store holds its content under its mode.
pub provision-IsProvisioned :
    (w : Runtime) (cfg : Config) (subject : Str) (staging : Bool) (arts : List Artifact) (s t : Sys)
    → provision w cfg subject staging s ≡ (ok arts, t)
    → IsProvisioned w cfg subject staging s arts t
provision-IsProvisioned w cfg subject staging arts s t h =
    go (provision w cfg subject staging s) ((steps w cfg subject staging s).at s refl) h
  where
    go :
        (r : Result (List Artifact) × Sys)
        → Outcome (IsProvisioned w cfg subject staging s) Anything r.0 r.1
        → r ≡ (ok arts, t)
        → IsProvisioned w cfg subject staging s arts t
    go (ok xs, u) k e =
        subst (IsProvisioned w cfg subject staging s arts) (ap (λ r. r.1) e)
          (subst (λ xs. IsProvisioned w cfg subject staging s xs u) (ok_inj (ap (λ r. r.0) e)) k)
    go (err x, u) k e = cc (ap (λ r. r.0) e)
