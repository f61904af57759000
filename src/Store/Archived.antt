-- ===== src/Store/Archived.antt =====
-- An archive run of internal/store/store.go that nothing hinders returns, and stays below its directory.
use syscert.Base.{
  ℕ, ◌≡◌, ◌≢◌, refl, sym, ap, ◌∙◌, true, false, Option, none, some, List, [], ◌∷◌, ◌++◌, All,
  All-map, if◌then◌else◌, arith, zero, suc, append-nil, append_assoc,
}
use syscert.Go.Strings.{Str, lit, has_prefix, str_eq, str_eq_refl, str_ne}
use syscert.Go.Filepath.{FilePath, resolve, in_dir}
use syscert.Os.{
  sys, enotdir, Result, ok, err, Meta, Node, Fs, lookup, Host, Sys, is_dir_node, publish,
}
use syscert.Os.Calls.{mkdir_all, make_dirs, fresh_meta, is_file_node, is_prefix, stat, stat_node}
use syscert.Os.Progress.{call_still, bound, wrapped}
use syscert.Atomicfile.States.{temp_path}
use syscert.Atomicfile.Names.{IsPlain, plain-ne}
use syscert.Atomicfile.Returns.{IsClear}
use syscert.Store.{artifact_names, cert_file}
use syscert.Store.Disk.{snapshot, archive}
use syscert.Store.Files.{beside_prefix}
use syscert.Base.Int.{ℤ, pos, negsuc}
use syscert.Store.Dirs.{
  HasDir, AreThere, make_dirs-there, make_dirs-append, dir_at, dir_at-same, dir_at-is_dir,
}
use syscert.Store.Copies.{Kept-trans, Kept, CanCopy, plain_snoc}
use syscert.Store.Snapped.{names-ArePlain, archive_files-Snapped}
use syscert.Store.Pruned.{archive_root, prune_archive-returns}

module _ (h : Host) (dir : Str) where
  -- The store's directory and those above it are there, no file is in the place of the archive or of
  -- the snapshot, and no directory in the place of an artifact or of a copy.
  pub record CanArchive (stamp : Str) (s : Sys) : Type 0 where
    pub clear : IsClear h s
    pub dir_there : HasDir (resolve dir) s
    pub above : AreThere [] (resolve dir) s.fs
    pub plain : IsPlain stamp
    pub root_free : is_file_node (lookup (archive_root dir) s.fs) ≡ false
    pub dest_free : is_file_node (lookup ((archive_root dir) ++ (stamp ∷ [])) s.fs) ≡ false
    pub source : All (λ x. is_dir_node (lookup (in_dir dir x) s.fs) ≡ false) artifact_names
    pub slot :
        All
          (λ x.
            is_dir_node (lookup (((archive_root dir) ++ (stamp ∷ [])) ++ (x ∷ [])) s.fs) ≡ false)
          artifact_names

longer-ne : (d : FilePath) (x : Str) (r : FilePath) → d ++ (x ∷ r) ≢ d
longer-ne [] x r e = cc e
longer-ne (c ∷ d) x r e = longer-ne d x r (cc)

is_prefix-append : (a b : FilePath) → is_prefix a (a ++ b) ≡ true
unfolding is_prefix
is_prefix-append [] b = refl
is_prefix-append (c ∷ a) b = ground (arith, str_eq_refl c, is_prefix-append a b)

archive-IsPlain : IsPlain (lit "archive")
unfolding has_prefix lit
archive-IsPlain = refl

-- The artifacts are not below the archive.
pub apart :
    (dir : Str) → All (λ x. is_prefix (archive_root dir) (in_dir dir x) ≡ false) artifact_names
unfolding lit str_eq
apart dir = (at _ refl, (at _ refl, (at _ refl, (at _ refl, (at _ refl, tt)))))
  where
    at :
        (x : Str)
        → str_eq (lit "archive") x ≡ false
        → is_prefix (archive_root dir) (in_dir dir x) ≡ false
    at x e = beside_prefix (resolve dir) (lit "archive") x [] (str_ne (lit "archive") x e)

module _ (h : Host) (dir stamp : Str) (s : Sys) (can : CanArchive h dir stamp s) (m : Meta) where
  dest : FilePath
  dest = (archive_root dir) ++ (stamp ∷ [])

  made_fs : Fs
  unfolding dest
  made_fs = dir_at dest m (dir_at (archive_root dir) m s.fs)

  made_fs-eq : make_dirs [] dest m s.fs ≡ made_fs
  unfolding made_fs make_dirs
  made_fs-eq =
      make_dirs-append [] (archive_root dir) (stamp ∷ []) m s.fs
      ∙ ap (make_dirs (archive_root dir) (stamp ∷ []) m) (
          make_dirs-append [] (resolve dir) (lit "archive" ∷ []) m s.fs
          ∙ ap (make_dirs (resolve dir) (lit "archive" ∷ []) m)
              (make_dirs-there [] (resolve dir) m s.fs can.above))

  made_fs-same :
      (q : FilePath) → q ≢ (archive_root dir) → q ≢ dest → lookup q made_fs ≡ lookup q s.fs
  unfolding made_fs
  made_fs-same q a b =
      dir_at-same dest q m (dir_at (archive_root dir) m s.fs) b
      ∙ dir_at-same (archive_root dir) q m s.fs a

  made_fs-dest : is_dir_node (lookup dest made_fs) ≡ true
  unfolding made_fs dest
  made_fs-dest = dir_at-is_dir dest m (dir_at (archive_root dir) m s.fs) (
      ap is_file_node
        (dir_at-same (archive_root dir) dest m s.fs (longer-ne (archive_root dir) stamp []))
      ∙ can.dest_free)

  made-Kept : Kept h (archive_root dir) s (publish made_fs s)
  unfolding dest
  made-Kept = record {
    clear = record {
      still = record { faults = can.clear.still.faults; host = can.clear.still.host };
      free = λ x n.
          made_fs-same (temp_path x n)
            (λ e.
              plain-ne (archive_root dir) x n
                (plain_snoc (resolve dir) (lit "archive") archive-IsPlain) (sym e))
            (λ e. plain-ne dest x n (plain_snoc (archive_root dir) stamp can.plain) (sym e))
          ∙ can.clear.free x n;
    };
    same = λ q out.
        made_fs-same q
          (λ e. cc (
            ap (is_prefix (archive_root dir)) e,
            out,
            ap (is_prefix (archive_root dir)) (append-nil (archive_root dir)),
            is_prefix-append (archive_root dir) [],
          ))
          (λ e. cc (
            ap (is_prefix (archive_root dir)) e,
            out,
            is_prefix-append (archive_root dir) (stamp ∷ []),
          ));
  }

  made-CanCopy : CanCopy h dir dest artifact_names (publish made_fs s)
  unfolding dest
  made-CanCopy = record {
    clear = made-Kept.clear;
    there = made_fs-dest;
    source = sources artifact_names (apart dir) can.source;
    slot =
        All-map (λ x. is_dir_node (lookup (dest ++ (x ∷ [])) s.fs) ≡ false)
          (λ x. is_dir_node (lookup (dest ++ (x ∷ [])) made_fs) ≡ false) artifact_names
          (λ x f.
            ap is_dir_node (
              made_fs-same (dest ++ (x ∷ []))
                (λ e.
                  longer-ne (archive_root dir) stamp (x ∷ [])
                    (sym (append_assoc (archive_root dir) (stamp ∷ []) (x ∷ [])) ∙ e))
                (longer-ne dest x []))
            ∙ f)
          can.slot;
  }
    where
      sources :
          (xs : List Str)
          → All (λ x. is_prefix (archive_root dir) (in_dir dir x) ≡ false) xs
          → All (λ x. is_dir_node (lookup (in_dir dir x) s.fs) ≡ false) xs
          → All (λ x. is_dir_node (lookup (in_dir dir x) made_fs) ≡ false) xs
      sources [] out f = tt
      sources (x ∷ xs) out f =
          (ap is_dir_node (made-Kept.same (in_dir dir x) out.0) ∙ f.0, sources xs out.1 f.1)

module _ (h : Host) (dir stamp : Str) (s : Sys) (can : CanArchive h dir stamp s) where
  snapshot-returns :
      (keep : ℕ)
      → (u : Sys) × (snapshot dir keep stamp s ≡ (ok tt, u)) × Kept h (archive_root dir) s u
  unfolding snapshot mkdir_all dest
  snapshot-returns keep =
      let root = in_dir dir (lit "archive") in
      let d = root ++ (stamp ∷ []) in
      let m = fresh_meta 0o700 s in
      let s1 = publish (made_fs h dir stamp s can m) s in
      let (s2, copied, k2) =
        archive_files-Snapped h dir root d
          (λ x.
            ap (is_prefix root) (append_assoc root (stamp ∷ []) (x ∷ []))
            ∙ is_prefix-append root (stamp ∷ x ∷ []))
          artifact_names s1 names-ArePlain (apart dir) (made-CanCopy h dir stamp s can m) in
      let (s3, pruned, k3) = prune_archive-returns h dir keep s2 k2.kept.clear in
      (
        s3,
        bound _ _ tt s s1 (
              wrapped "create archive dir: %w" [] (mkdir_all d 0o700) tt s s1 (
                call_still
                  (λ x.
                    if is_file_node (lookup d x.fs)
                    then (err (sys enotdir), x)
                    else (ok tt, publish (make_dirs [] d (fresh_meta 0o700 x) x.fs) x))
                  s can.clear.still.faults
                ∙ ap
                    (λ b.
                      if b
                      then (err (sys enotdir), s)
                      else (ok tt, publish (make_dirs [] d m s.fs) s))
                    can.dest_free
                ∙ ap (λ fs. (ok tt, publish fs s)) (made_fs-eq h dir stamp s can m)))
            ∙ bound _ _ tt s1 s2 copied
            ∙ pruned,
        Kept-trans h root s s2 s3
            (Kept-trans h root s s1 s2 (made-Kept h dir stamp s can m) k2.kept) k3,
      )

  -- If the environment lets all calls through, no file has the name of a temporary one, the store's
  -- directory and those above it are there, no file is in the place of the archive or of the
  -- snapshot, whose name is no temporary one, and no directory is in the place of an artifact or of
  -- its copy, then an archive run returns, every file outside the archive is as it was, and the same
  -- holds of the calls and the names again.
  pub archive-returns :
      (keep : ℤ)
      → (u : Sys) × (archive dir keep stamp s ≡ (ok tt, u)) × Kept h (archive_root dir) s u
  unfolding archive stat
  archive-returns (negsuc k) = (s, refl, record { clear = can.clear; same = λ q out. refl })
  archive-returns (pos zero) = (s, refl, record { clear = can.clear; same = λ q out. refl })
  archive-returns (pos (suc k)) = go (lookup (in_dir dir cert_file) s.fs) refl
    where
      after : Result Node × Sys → Result (Unit {0}) × Sys
      after r = elim r.0 as (λ _. Result (Unit {0}) × Sys) [
        | err e ↦ (ok tt, r.1)
        | ok fi ↦ snapshot dir (suc k) stamp r.1
      ]

      stats :
          (o : Option Node)
          → lookup (in_dir dir cert_file) s.fs ≡ o
          → stat (in_dir dir cert_file) s ≡ stat_node o s
      stats o e =
          call_still (λ x. stat_node (lookup (in_dir dir cert_file) x.fs) x) s
            can.clear.still.faults
          ∙ ap (λ o. stat_node o s) e

      go :
          (o : Option Node)
          → lookup (in_dir dir cert_file) s.fs ≡ o
          → (u : Sys) × (archive dir (pos (suc k)) stamp s ≡ (ok tt, u))
            × Kept h (archive_root dir) s u
      go none e = (s, ap after (stats none e), record { clear = can.clear; same = λ q out. refl })
      go (some n) e =
          let (u, taken, kept) = snapshot-returns (suc k) in
          (u, ap after (stats (some n) e) ∙ taken, kept)
