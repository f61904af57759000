-- ===== src/Store/Progress.antt =====
-- A write of the store, internal/store/store.go, that nothing hinders returns.
use syscert.Base.{
  ℕ, ◌≡◌, ◌≢◌, refl, sym, ap, subst, ◌∙◌, Bool, Bool-cases, inl, inr, true, false, Option, none,
  some, List, [], ◌∷◌, All, All-map, ◌==◌, if◌then◌else◌, arith,
}
use syscert.Go.Strings.{Str, is_empty}
use syscert.Go.Filepath.{FilePath, resolve, in_dir}
use syscert.Os.{
  Result, ok, err, Error, Meta, directory, lookup, insert, Host, Sys, path_eq, is_dir, is_dir_node,
  call, publish, pure,
}
use syscert.Os.Calls.{file_mode, mkdir_all, chmod, chown, update_node, or_keep}
use syscert.Os.Laws.{path_eq_iff, path_ne, lookup-insert, lookup-insert_self}
use syscert.Os.Progress.{IsKnown, call_still, bound, wrapped}
use syscert.Atomicfile.States.{temp_path}
use syscert.Atomicfile.Returns.{IsClear}
use syscert.Store.{Artifact}
use syscert.Store.Disk.{WriteOptions, store_gid, chgrp, write}
use syscert.Store.Written.{AreNames}
use syscert.Store.Dirs.{HasDir, AreThere, mkdir_all-there}
use syscert.Store.Placing.{Vacant, write_artifacts-returns}

-- Another system with the same files, but for the mode and the owner of one directory.
record SameDirs (h : Host) (p : FilePath) (s u : Sys) : Type 0 where
  pub clear : IsClear h u
  pub dir : HasDir p u
  pub same : (q : FilePath) → q ≢ p → lookup q u.fs ≡ lookup q s.fs

module _ (h : Host) (p : FilePath) (s u : Sys) (d : SameDirs h p s u) where
  dir_ne : (x : FilePath) (n : ℕ) → p ≢ temp_path x n
  dir_ne x n e = cc (ap (λ y. lookup y u.fs) e, d.dir.1, d.clear.free x n)

  update_dir :
      (f : Meta → Meta)
      → (v : Sys) × (call (λ x. update_node p f (lookup p x.fs) x) u ≡ (ok tt, v))
        × SameDirs h p s v
  update_dir f = (
    publish (insert p (directory (f d.dir.0)) u.fs) u,
    call_still (λ x. update_node p f (lookup p x.fs) x) u d.clear.still.faults
        ∙ ap (λ o. update_node p f o u) d.dir.1,
    record {
      clear = record {
        still = record { faults = d.clear.still.faults; host = d.clear.still.host };
        free = λ x n.
            rw lookup-insert
              (ground (arith, path_eq_iff p (temp_path x n), d.clear.free x n, dir_ne x n));
      };
      dir = (f d.dir.0, lookup-insert_self p _ u.fs);
      same = λ q ne. rw lookup-insert (ground (arith, path_eq_iff p q, d.same q ne));
    },
  )

  chgrp_dir : (gid : Option ℕ) → (v : Sys) × (chgrp p gid u ≡ (ok tt, v)) × SameDirs h p s v
  unfolding chgrp chown pure
  chgrp_dir none = (u, refl, d)
  chgrp_dir (some g) =
      update_dir (λ m. record m { uid = or_keep none m.uid; gid = or_keep (some g) m.gid })

store_gid_known :
    (opts : WriteOptions) (s : Sys)
    → IsKnown s.host.group_of opts.group
    → (g : Option ℕ) × (store_gid opts s ≡ (ok g, s))
unfolding store_gid
store_gid_known opts s k = go (is_empty opts.group) (s.host.group_of opts.group) k
  where
    go :
        (b : Bool) (i : Option ℕ)
        → (b ≡ false → (n : ℕ) × (i ≡ some n))
        → (g : Option ℕ) × ((if b then (ok none, s) else elim i as (λ _. Result (Option ℕ) × Sys) [
          | none ↦ (
            err (Error.wrap "store group %q: %w" (opts.group ∷ []) (Error.text "unknown group" [])),
            s,
          )
          | some g ↦ (ok (some g), s)
        ])
            ≡ (ok g, s))
    go true i k = (none, refl)
    go false (some n) k = (some n, refl)
    go false none k = cc ((k refl).1)

-- The store's directory and those above it are there, and nothing hinders a write of the artifacts.
pub record CanStore (h : Host) (dir : Str) (arts : List Artifact) (opts : WriteOptions) (s : Sys)
    : Type 0 where
  pub clear : IsClear h s
  pub dir_there : HasDir (resolve dir) s
  pub above : AreThere [] (resolve dir) s.fs
  pub vacant : Vacant dir arts s
  pub group : IsKnown h.group_of opts.group

-- What a write that is not hindered leaves: the directory, and every file but those of the artifacts
-- and but the directory as it was.
pub record Wrote (h : Host) (dir : Str) (arts : List Artifact) (s u : Sys) : Type 0 where
  pub clear : IsClear h u
  pub dir_there : HasDir (resolve dir) u
  pub same :
      (q : FilePath)
      → q ≢ resolve dir
      → All (λ a. q ≢ in_dir dir a.name) arts
      → lookup q u.fs ≡ lookup q s.fs

module _ (h : Host) (dir : Str) (arts : List Artifact) (opts : WriteOptions) (s : Sys)
    (can : CanStore h dir arts opts s) where
  made :
      (mode : ℕ)
      → (u : Sys) × (mkdir_all (resolve dir) mode s ≡ (ok tt, u)) × SameDirs h (resolve dir) s u
  made mode = (
    publish s.fs s,
    mkdir_all-there (resolve dir) mode s can.clear.still.faults can.dir_there can.above,
    record {
      clear = record {
        still = record { faults = can.clear.still.faults; host = can.clear.still.host };
        free = can.clear.free;
      };
      dir = can.dir_there;
      same = λ q ne. refl;
    },
  )

  outside :
      (q : FilePath) → is_dir_node (lookup q s.fs) ≡ true → All (λ a. q ≢ in_dir dir a.name) arts
  outside q d =
      All-map _ _ arts (λ a f e. cc (ap (λ x. is_dir_node (lookup x s.fs)) e, d, f)) can.vacant

  pub Wrote-is_dir :
      (u : Sys)
      → Wrote h dir arts s u
      → (q : FilePath) → is_dir q s.fs ≡ true
      → is_dir q u.fs ≡ true
  Wrote-is_dir u d [] e = refl
  Wrote-is_dir u d (c ∷ q) e = elim (Bool-cases (path_eq (c ∷ q) (resolve dir))) [
    | inl here ↦
        ap (λ x. is_dir_node (lookup x u.fs)) ((path_eq_iff (c ∷ q) (resolve dir)).0 here)
        ∙ ap is_dir_node d.dir_there.1
    | inr other ↦
        ap is_dir_node (d.same (c ∷ q) (path_ne (c ∷ q) (resolve dir) other) (outside (c ∷ q) e))
        ∙ e
  ]

  pub write-returns :
      AreNames arts → (u : Sys) × (write dir arts opts s ≡ (ok tt, u)) × Wrote h dir arts s u
  unfolding write chmod
  write-returns names =
      let mode = if opts.dir_mode == 0 then 0o700 else file_mode opts.dir_mode in
      let (s1, e1, d1) = made mode in
      let (s2, e2, d2) = update_dir h (resolve dir) s s1 d1 (λ m. record m { mode = mode }) in
      let (gid, e3) =
        store_gid_known opts s2
          (subst (λ x. IsKnown x.group_of opts.group) (sym d2.clear.still.host) can.group) in
      let (s3, e4, d3) = chgrp_dir h (resolve dir) s s2 d2 gid in
      let (u, e5, same, clear) =
        write_artifacts-returns dir gid h arts s3 names d3.clear d3.dir
          (vacant_still arts can.vacant s3 d3) in
      (
        u,
        bound _ _ tt s s1 (wrapped "create store dir %s: %w" (dir ∷ []) _ tt s s1 e1)
            ∙ bound _ _ tt s1 s2 (wrapped "chmod store dir %s: %w" (dir ∷ []) _ tt s1 s2 e2)
            ∙ bound (store_gid opts) _ gid s2 s2 e3
            ∙ bound _ _ tt s2 s3 (wrapped "chgrp store dir: %w" [] _ tt s2 s3 e4)
            ∙ e5,
        record {
          clear = clear;
          dir_there = (
            d3.dir.0,
            same (resolve dir) (outside (resolve dir) (ap is_dir_node can.dir_there.1)) ∙ d3.dir.1,
          );
          same = λ q ne all. same q all ∙ d3.same q ne;
        },
      )
    where
      vacant_still :
          (xs : List Artifact)
          → Vacant dir xs s
          → (v : Sys) → SameDirs h (resolve dir) s v
          → Vacant dir xs v
      vacant_still xs free v d =
          All-map _ _ xs
            (λ a f.
              ap is_dir_node (
                d.same (in_dir dir a.name) (λ e.
                  cc (ap (λ x. is_dir_node (lookup x s.fs)) e, ap is_dir_node can.dir_there.1, f)))
              ∙ f)
            free
