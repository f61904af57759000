-- ===== src/Store/Written.antt =====
-- What a write of the store leaves on the disk, internal/store/store.go.
use syscert.Base.{ℕ, ◌≡◌, ◌≢◌, ap, ◌∙◌, Option, none, some, List, [], ◌∷◌, All}
use syscert.Go.Strings.{Str, lit, has_prefix}
use syscert.Go.Filepath.{FilePath, resolve, in_dir}
use syscert.Os.{Sys, ok}
use syscert.Os.Triples.{Triple-pure, Triple-bind, Triple-wrapping}
use syscert.Os.Holds.{
  Holds, Anything, Ensures, Ensures-nothing, Ensures-also, Ensures-at, chown-Holds,
}
use syscert.Atomicfile.Holds.{write-Holds, write-keeps}
use syscert.Atomicfile.States.{temp_path}
use syscert.Store.{Artifact}
use syscert.Store.Disk.{WriteOptions, chgrp, write_artifacts, write}
use syscert.Atomicfile.Names.{IsPlain, IsPlainPath, last_part-snoc, plain-ne}
use syscert.Store.Files.{beside-ne}

-- Different names, none of them that of a temporary file.
abbrev pub AreNames : List Artifact → Type 0
AreNames [] = Unit {0}
AreNames (a ∷ arts) = IsPlain a.name × All (λ b. a.name ≢ b.name) arts × AreNames arts

-- Each artifact's file holds its content under its mode.
abbrev pub Stored : Str → List Artifact → Sys → Type 0
Stored dir arts s = All (λ a. Holds (in_dir dir a.name) a.content a.mode s) arts

pub in_dir-IsPlainPath : (dir x : Str) → IsPlain x → IsPlainPath (in_dir dir x)
in_dir-IsPlainPath dir x plain =
    ap (λ z. has_prefix z (lit ".syscert-")) (last_part-snoc (resolve dir) x) ∙ plain

artifact-ne : (dir x y : Str) → IsPlain x → (n : ℕ) → in_dir dir x ≢ temp_path (in_dir dir y) n
artifact-ne dir x y plain n =
    plain-ne (in_dir dir x) (in_dir dir y) n (in_dir-IsPlainPath dir x plain)

module _ (dir : Str) (gid : Option ℕ) where
  chgrp-Holds :
      (p q : FilePath) (content : Str) (mode : ℕ)
      → (g : Option ℕ) → Ensures (Holds q content mode) (chgrp p g) (Holds q content mode)
  unfolding chgrp
  chgrp-Holds p q content mode none = Triple-pure tt (λ s h. h)
  chgrp-Holds p q content mode (some g) = chown-Holds p q none (some g) content mode

  write_artifacts_keeps :
      (x content : Str) (mode : ℕ) (arts : List Artifact)
      → IsPlain x
      → All (λ b. x ≢ b.name) arts
      → AreNames arts
      → Ensures
          (Holds (in_dir dir x) content mode)
          (write_artifacts dir gid arts)
          (Holds (in_dir dir x) content mode)
  unfolding write_artifacts
  write_artifacts_keeps x content mode [] plain ne names = Triple-pure tt (λ s h. h)
  write_artifacts_keeps x content mode (a ∷ arts) plain ne names =
      Triple-bind _ _
        (Triple-wrapping _ _ _ (
          write-keeps (in_dir dir a.name) a.content a.mode (artifact-ne dir a.name a.name names.0)
            (in_dir dir x) content mode (beside-ne (resolve dir) x a.name [] ne.0)
            (artifact-ne dir x a.name plain)))
        λ _.
          Triple-bind _ _
            (Triple-wrapping _ _ _
              (chgrp-Holds (in_dir dir a.name) (in_dir dir x) content mode gid))
            λ _. write_artifacts_keeps x content mode arts plain ne.1 names.2

  write_artifacts-Stored :
      (arts : List Artifact)
      → AreNames arts
      → Ensures Anything (write_artifacts dir gid arts) (Stored dir arts)
  unfolding write_artifacts
  write_artifacts-Stored [] names = Ensures-nothing _
  write_artifacts-Stored (a ∷ arts) names =
      Triple-bind _ _
        (Triple-wrapping _ _ _ (
          write-Holds (in_dir dir a.name) a.content a.mode (artifact-ne dir a.name a.name names.0)))
        λ _.
          Triple-bind _ _
            (Triple-wrapping _ _ _ (chgrp-Holds _ (in_dir dir a.name) a.content a.mode gid))
            λ _.
              Ensures-also (write_artifacts dir gid arts)
                (write_artifacts_keeps a.name a.content a.mode arts names.0 names.1 names.2)
                (write_artifacts-Stored arts names.2)

pub write-Ensures :
    (dir : Str) (arts : List Artifact) (opts : WriteOptions)
    → AreNames arts
    → Ensures Anything (write dir arts opts) (Stored dir arts)
unfolding write
write-Ensures dir arts opts names = Triple-bind _ _ (Ensures-nothing _) λ _.
    Triple-bind _ _ (Ensures-nothing _) λ _.
      Triple-bind _ _ (Ensures-nothing _)
        λ gid. Triple-bind _ _ (Ensures-nothing _) λ _. write_artifacts-Stored dir gid arts names

-- If the artifacts have different names, none of them that of a temporary file, then a write of the
-- store that returns leaves each artifact's file with its content and its mode.
pub write-Stored :
    (dir : Str) (arts : List Artifact) (opts : WriteOptions) (s t : Sys)
    → AreNames arts
    → write dir arts opts s ≡ (ok tt, t)
    → Stored dir arts t
write-Stored dir arts opts s t names = Ensures-at _ tt s t (write-Ensures dir arts opts names) tt
