-- ===== src/Store/Copies.antt =====
-- The copies of the artifacts in a snapshot, internal/store/store.go.
use syscert.Base.{
  ◌%◌, ◌≡◌, ◌≢◌, refl, sym, ap, ◌∙◌, true, false, Option, none, some, List, [], ◌∷◌, ◌++◌, All,
}
use syscert.Go.Strings.{Str, lit, has_prefix}
use syscert.Go.Filepath.{FilePath, in_dir}
use syscert.Os.{
  sys, Result, ok, err, Meta, Node, file, directory, lookup, Host, Sys, is_dir, is_dir_node, pure,
  enoent,
}
use syscert.Os.Calls.{is_prefix, read_file, read_node, stat, stat_node}
use syscert.Os.Progress.{call_still, bound, wrapped}
use syscert.Atomicfile.Atomic.{temp_meta}
use syscert.Atomicfile.Names.{IsPlain, IsPlainPath, last_part-snoc}
use syscert.Atomicfile.Returns.{IsClear, write_unprepared}
use syscert.Store.Disk.{archive_read, archive_files, archive}
use syscert.Os.Holds.{Holds, node_inj}
use syscert.Store.Dirs.{parent-snoc}

-- Nothing hinders the next call, and every file outside the tree is as it was.
pub record Kept (h : Host) (root : FilePath) (s u : Sys) : Type 0 where
  pub clear : IsClear h u
  pub same : (q : FilePath) → is_prefix root q ≡ false → lookup q u.fs ≡ lookup q s.fs

-- The file at one path has its content at the other, with the permission bits of its mode.
abbrev pub IsCopy : FilePath → FilePath → Sys → Sys → Type 0
IsCopy from to s u =
    (content : Str) (m : Meta)
    → lookup from s.fs ≡ some (file content m)
    → Holds to content (m.mode % 0o1000) u

module _ (h : Host) (dir : Str) (dest : FilePath) where
  -- A snapshot's directory is there, and the file of each name can be copied into it.
  pub record CanCopy (names : List Str) (s : Sys) : Type 0 where
    pub clear : IsClear h s
    pub there : is_dir_node (lookup dest s.fs) ≡ true
    pub source : All (λ x. is_dir_node (lookup (in_dir dir x) s.fs) ≡ false) names
    pub slot : All (λ x. is_dir_node (lookup (dest ++ (x ∷ [])) s.fs) ≡ false) names

  pub archive_files-cons :
      (name : Str) (names : List Str) (r : Result Str) (s u : Sys)
      → read_file (in_dir dir name) s ≡ (r, s)
      → archive_read (in_dir dir name) dest name r s ≡ (ok tt, u)
      → archive_files dir dest (name ∷ names) s ≡ archive_files dir dest names u
  unfolding archive_files
  archive_files-cons name names r s u e f =
      ap
        (λ x.
          (syscert.Os.◌>>=◌ (archive_read (in_dir dir name) dest name x.0)
              (λ _. archive_files dir dest names))
            x.1)
        e
      ∙ bound _ _ tt s u f

  -- What copying one file does: nothing, or that file in the snapshot.
  pub record Copied (name : Str) (s u : Sys) : Type 0 where
    pub clear : IsClear h u
    pub same : (q : FilePath) → q ≢ dest ++ (name ∷ []) → lookup q u.fs ≡ lookup q s.fs
    pub copy : IsCopy (in_dir dir name) (dest ++ (name ∷ [])) s u

  pub copied :
      (name : Str) (s : Sys)
      → IsClear h s
      → is_dir dest s.fs ≡ true
      → IsPlainPath (dest ++ (name ∷ []))
      → is_dir_node (lookup (in_dir dir name) s.fs) ≡ false
      → is_dir_node (lookup (dest ++ (name ∷ [])) s.fs) ≡ false
      → (r : Result Str) × (u : Sys) × (read_file (in_dir dir name) s ≡ (r, s))
        × (archive_read (in_dir dir name) dest name r s ≡ (ok tt, u))
        × Copied name s u
  unfolding archive_read read_file stat pure syscert.Distribute.is_errno
      syscert.Store.Disk.is_not_exist
  copied name s clear there plain source over = go (lookup (in_dir dir name) s.fs) refl source
    where
      reads :
          (o : Option Node)
          → lookup (in_dir dir name) s.fs ≡ o
          → read_file (in_dir dir name) s ≡ read_node o s
      reads o e =
          call_still (λ x. read_node (lookup (in_dir dir name) x.fs) x) s clear.still.faults
          ∙ ap (λ o. read_node o s) e

      stats :
          (n : Node) → lookup (in_dir dir name) s.fs ≡ some n → stat (in_dir dir name) s ≡ (ok n, s)
      stats n e =
          call_still (λ x. stat_node (lookup (in_dir dir name) x.fs) x) s clear.still.faults
          ∙ ap (λ o. stat_node o s) e

      go :
          (o : Option Node)
          → lookup (in_dir dir name) s.fs ≡ o
          → is_dir_node o ≡ false
          → (r : Result Str) × (u : Sys) × (read_file (in_dir dir name) s ≡ (r, s))
            × (archive_read (in_dir dir name) dest name r s ≡ (ok tt, u))
            × Copied name s u
      go none e f = (
        err (sys enoent),
        s,
        reads none e,
        refl,
        record { clear = clear; same = λ q ne. refl; copy = λ c k found. cc (e, found) },
      )
      go (some (directory m)) e f = cc f
      go (some (file content m)) e f =
          let (u, wrote, placed, clear') =
            write_unprepared s (dest ++ (name ∷ [])) content (m.mode % 0o1000) h clear (record {
              plain = plain;
              there = ap (λ x. is_dir x s.fs) (parent-snoc dest name) ∙ there;
              over = over;
            }) in
          (
            ok content,
            u,
            reads (some (file content m)) e,
            bound _ _ (file content m) s s (
                  wrapped "stat %s for archive: %w" (name ∷ []) _ (file content m) s s
                    (stats (file content m) e))
                ∙ wrapped "archive %s: %w" (name ∷ []) _ tt s u wrote,
            record {
              clear = clear';
              same = placed.same;
              copy = λ c k found.
                  let same = node_inj (sym e ∙ found) in
                  let new = record (temp_meta h) { mode = m.mode % 0o1000 } in
                  (
                    new,
                    placed.target ∙ ap (λ x. some (file x new)) same.0,
                    ap (λ x. x.mode % 0o1000) same.1,
                  );
            },
          )

pub plain_snoc : (d : FilePath) (x : Str) → IsPlain x → IsPlainPath (d ++ (x ∷ []))
plain_snoc d x plain = ap (λ z. has_prefix z (lit ".syscert-")) (last_part-snoc d x) ∙ plain

pub Kept-trans :
    (h : Host) (root : FilePath) (s u v : Sys) → Kept h root s u → Kept h root u v → Kept h root s v
Kept-trans h root s u v k l = record {
  clear = l.clear;
  same = λ q out. l.same q out ∙ k.same q out;
}
