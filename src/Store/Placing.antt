-- ===== src/Store/Placing.antt =====
-- The artifacts, written and given their group one after the other, internal/store/store.go.
use syscert.Base.{ℕ, ◌≡◌, ◌≢◌, refl, sym, ap, ◌∙◌, false, Option, none, some, List, [], ◌∷◌, All}
use syscert.Go.Strings.{Str}
use syscert.Go.Filepath.{FilePath, resolve, in_dir}
use syscert.Os.{ok, Meta, lookup, Host, Sys, is_dir, is_dir_node, pure}
use syscert.Os.Calls.{chown, or_keep}
use syscert.Os.Progress.{bound, wrapped}
use syscert.Atomicfile.Names.{IsPlainPath}
use syscert.Atomicfile.Returns.{IsClear, Placed, write_unprepared}
use syscert.Atomicfile.Updates.{update-eq, updated-Placed, updated-IsClear}
use syscert.Store.{Artifact}
use syscert.Store.Disk.{chgrp, write_artifacts}
use syscert.Store.Written.{AreNames, in_dir-IsPlainPath}
use syscert.Store.Files.{beside-ne}
use syscert.Store.Dirs.{parent-snoc, HasDir, HasDir-is_dir}

-- Every file but those of the artifacts is as it was.
abbrev pub SameBeside : Str → List Artifact → Sys → Sys → Type 0
SameBeside dir arts s u =
    (q : FilePath) → All (λ a. q ≢ in_dir dir a.name) arts → lookup q u.fs ≡ lookup q s.fs

-- No directory is in the place of an artifact.
abbrev pub Vacant : Str → List Artifact → Sys → Type 0
Vacant dir arts s = All (λ a. is_dir_node (lookup (in_dir dir a.name) s.fs) ≡ false) arts

module _ (dir : Str) (gid : Option ℕ) (h : Host) where
  chgrp-returns :
      (p : FilePath) (content : Str) (m : Meta) (s u : Sys)
      → Placed p content m s u
      → IsClear h u
      → IsPlainPath p
      → (v : Sys) × (chgrp p gid u ≡ (ok tt, v))
        × (m' : Meta) × Placed p content m' s v
        × IsClear h v
  unfolding chgrp chown pure
  chgrp-returns p content m s u placed clear plain = go gid
    where
      go :
          (g : Option ℕ)
          → (v : Sys) × (chgrp p g u ≡ (ok tt, v))
            × (m' : Meta) × Placed p content m' s v
            × IsClear h v
      go none = (u, refl, m, placed, clear)
      go (some g) =
          let f =
            λ (m : Meta). record m { uid = or_keep none m.uid; gid = or_keep (some g) m.gid } in
          (
            _,
            update-eq h p content m s u placed clear f,
            f m,
            updated-Placed h p content m s u placed clear f,
            updated-IsClear h p content m s u placed clear f plain,
          )

  Vacant-later :
      (a : Artifact) (arts : List Artifact) (content : Str) (m : Meta) (s u : Sys)
      → Placed (in_dir dir a.name) content m s u
      → All (λ b. a.name ≢ b.name) arts
      → Vacant dir arts s
      → Vacant dir arts u
  Vacant-later a [] content m s u placed ne free = tt
  Vacant-later a (b ∷ arts) content m s u placed ne free = (
    ap is_dir_node (
          placed.same (in_dir dir b.name)
            (λ e. beside-ne (resolve dir) a.name b.name [] ne.0 (sym e)))
        ∙ free.0,
    Vacant-later a arts content m s u placed ne.1 free.1,
  )

  pub write_artifacts-returns :
      (arts : List Artifact) (s : Sys)
      → AreNames arts
      → IsClear h s
      → HasDir (resolve dir) s
      → Vacant dir arts s
      → (u : Sys) × (write_artifacts dir gid arts s ≡ (ok tt, u))
        × SameBeside dir arts s u
        × IsClear h u
  unfolding write_artifacts pure
  write_artifacts-returns [] s names clear d free = (s, refl, λ q ne. refl, clear)
  write_artifacts-returns (a ∷ arts) s names clear d free =
      let p = in_dir dir a.name in
      let plain = in_dir-IsPlainPath dir a.name names.0 in
      let (u, wrote, placed, clear1) = write_unprepared s p a.content a.mode h clear (record {
        plain = plain;
        there =
            ap (λ x. is_dir x s.fs) (parent-snoc (resolve dir) a.name)
            ∙ HasDir-is_dir (resolve dir) s d;
        over = free.0;
      }) in
      let (v, changed, m, placed2, clear2) = chgrp-returns p a.content _ s u placed clear1 plain in
      let kept =
        placed2.same (resolve dir)
          (λ e. cc (ap (λ x. is_dir_node (lookup x s.fs)) e, ap is_dir_node d.1, free.0)) in
      let (t, rest, same, clear3) =
        write_artifacts-returns arts v names.2 clear2 (d.0, kept ∙ d.1)
          (Vacant-later a arts a.content m s v placed2 names.1 free.1) in
      (
        t,
        bound _ _ tt s u (wrapped "write %s: %w" (a.name ∷ []) _ tt s u wrote)
            ∙ bound _ _ tt u v (wrapped "chgrp %s: %w" (a.name ∷ []) _ tt u v changed)
            ∙ rest,
        λ q ne. same q ne.1 ∙ placed2.same q ne.0,
        clear3,
      )
