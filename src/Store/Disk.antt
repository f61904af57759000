-- ===== src/Store/Disk.antt =====
-- internal/store/store.go: the directory that keeps the artifacts, with their archive and their removal.
use syscert.Base.{
  ℕ, zero, suc, ◌+◌, ◌-◌, ◌%◌, Bool, true, false, Option, none, some, List, [], ◌∷◌, ◌++◌, length,
  take, ◌==◌, if◌then◌else◌,
}
use syscert.Base.Int.{ℤ, pos, negsuc}
use syscert.Go.Strings.{Str, lit, is_empty}
use syscert.Go.Filepath.{FilePath, resolve, in_dir}
use syscert.Go.Sort.{sort}
use syscert.Os.{
  Errno, enoent, text, wrap, Result, ok, err, Node, file, directory, Sys, Exec, pure, raise, ◌>>=◌,
  ◌>>◌, wrapping, call,
}
use syscert.Os.Calls.{
  stat, read_file, chmod, chown, mkdir_all, remove, remove_all, child_dirs, file_mode,
}
use syscert.Distribute.{is_errno}
use syscert.Atomicfile
use syscert.Store.{Artifact, artifact_names, cert_file}

pub record WriteOptions : Type 0 where
  pub dir_mode : ℕ
  pub group : Str

-- `gid` is `none` for -1.
unfoldable pub store_gid : WriteOptions → Exec (Option ℕ)
store_gid opts s = if is_empty opts.group then (ok none, s) else elim (s.host.group_of opts.group) [
  | none ↦ (err (wrap "store group %q: %w" (opts.group ∷ []) (text "unknown group" [])), s)
  | some g ↦ (ok (some g), s)
]

unfoldable pub chgrp : FilePath → Option ℕ → Exec (Unit {0})
chgrp p none = pure tt
chgrp p (some gid) = chown p none (some gid)

unfoldable pub write_artifacts : Str → Option ℕ → List Artifact → Exec (Unit {0})
write_artifacts dir gid [] = pure tt
write_artifacts dir gid (a ∷ arts) = do
  wrapping "write %s: %w" (a.name ∷ []) (Atomicfile.write (in_dir dir a.name) a.content a.mode none)
  wrapping "chgrp %s: %w" (a.name ∷ []) (chgrp (in_dir dir a.name) gid)
  write_artifacts dir gid arts

unfoldable pub write : Str → List Artifact → WriteOptions → Exec (Unit {0})
unfolding write_artifacts store_gid chgrp
write dir arts opts = do
  let mode = if opts.dir_mode == 0 then 0o700 else file_mode opts.dir_mode
  wrapping "create store dir %s: %w" (dir ∷ []) (mkdir_all (resolve dir) mode)
  wrapping "chmod store dir %s: %w" (dir ∷ []) (chmod (resolve dir) mode)
  gid ← store_gid opts
  wrapping "chgrp store dir: %w" [] (chgrp (resolve dir) gid)
  write_artifacts dir gid arts

-- The names of the sub-directories, sorted; none where the directory cannot be read.
unfoldable pub subdirs : FilePath → Exec (List Str)
unfolding call
subdirs p s =
    let (r, s') = call (λ t. (ok (sort (child_dirs p t.fs)), t)) s in
    elim r [ ok names ↦ (ok names, s') | err e ↦ (ok [], s') ]

unfoldable pub remove_snapshots : FilePath → List Str → Exec (Unit {0})
remove_snapshots root [] = pure tt
remove_snapshots root (snap ∷ snaps) = do
  wrapping "prune archive %s: %w" (snap ∷ []) (remove_all (root ++ (snap ∷ [])))
  remove_snapshots root snaps

-- The oldest snapshots, all but `keep`.
unfoldable pub prune_archive : Str → ℕ → Exec (Unit {0})
unfolding subdirs remove_snapshots
prune_archive dir keep = do
  snaps ← subdirs (in_dir dir (lit "archive"))
  remove_snapshots (in_dir dir (lit "archive")) (take (length snaps - keep) snaps)

unfoldable pub is_not_exist : Errno → Bool
is_not_exist enoent = true
is_not_exist _ = false

-- fi.Mode().Perm()
abbrev node_perm : Node → ℕ
node_perm (file content m) = m.mode % 0o1000
node_perm (directory m) = m.mode % 0o1000

-- One artifact of the snapshot, after it was read.
unfoldable pub archive_read : FilePath → FilePath → Str → Result Str → Exec (Unit {0})
archive_read src dest name (err e) =
    if is_errno is_not_exist e
    then pure tt
    else raise (wrap "read %s for archive: %w" (name ∷ []) e)
archive_read src dest name (ok content) = do
  fi ← wrapping "stat %s for archive: %w" (name ∷ []) (stat src)
  wrapping "archive %s: %w" (name ∷ [])
      (Atomicfile.write (dest ++ (name ∷ [])) content (node_perm fi) none)

unfoldable pub archive_files : Str → FilePath → List Str → Exec (Unit {0})
unfolding archive_read
archive_files dir dest [] s = (ok tt, s)
archive_files dir dest (name ∷ names) s =
    let (r, s') = read_file (in_dir dir name) s in
    (do archive_read (in_dir dir name) dest name r; archive_files dir dest names) s'

-- `stamp` is the time in the format of the snapshot names.
unfoldable pub snapshot : Str → ℕ → Str → Exec (Unit {0})
unfolding archive_files prune_archive
snapshot dir keep stamp = do
  let dest = in_dir dir (lit "archive") ++ (stamp ∷ [])
  wrapping "create archive dir: %w" [] (mkdir_all dest 0o700)
  archive_files dir dest artifact_names
  prune_archive dir keep

unfoldable pub archive : Str → ℤ → Str → Exec (Unit {0})
unfolding snapshot
archive dir (negsuc k) stamp s = (ok tt, s)
archive dir (pos zero) stamp s = (ok tt, s)
archive dir (pos (suc k)) stamp s =
    let (r, s') = stat (in_dir dir cert_file) s in
    elim r [ err e ↦ (ok tt, s') | ok fi ↦ snapshot dir (suc k) stamp s' ]

-- The count after one call of os.Remove.
abbrev pub counted : ℕ → Result (Unit {0}) → ℕ
counted removed (ok u) = suc removed
counted removed (err e) = removed

-- The rest of the loop of WipeCerts after one call: `next` goes on.
abbrev pub removed_one :
    ℕ → Str → Result (Unit {0}) → Sys → ℕ × Result (Unit {0}) × Sys → ℕ × Result (Unit {0}) × Sys
removed_one removed name (ok u) s next = next
removed_one removed name (err e) s next =
    if is_errno is_not_exist e then next else (removed, err (wrap "remove %s: %w" (name ∷ []) e), s)

-- The number of artifacts removed so far, with the error if one cannot be removed.
unfoldable pub remove_artifacts : Str → ℕ → List Str → Sys → ℕ × Result (Unit {0}) × Sys
remove_artifacts dir removed [] s = (removed, ok tt, s)
remove_artifacts dir removed (name ∷ names) s =
    let (r, s') = remove (in_dir dir name) s in
    let next = remove_artifacts dir (counted removed r) names s' in
    removed_one removed name r s' next

abbrev pub count_one : Result (Unit {0}) × Sys → ℕ × Result (Unit {0}) × Sys
count_one (ok u, s) = (1, ok tt, s)
count_one (err e, s) = (0, err e, s)

-- The removal, if the stat before it found something.
abbrev pub remove_found : Str → Str → Result Node → Sys → ℕ × Result (Unit {0}) × Sys
remove_found dir sub (err e) s = (0, ok tt, s)
remove_found dir sub (ok fi) s =
    count_one (wrapping "remove %s: %w" (sub ∷ []) (remove_all (in_dir dir sub)) s)

-- 1 if there was something to remove.
unfoldable pub remove_if_present : Str → Str → Sys → ℕ × Result (Unit {0}) × Sys
remove_if_present dir sub s = let (r, s') = stat (in_dir dir sub) s in remove_found dir sub r s'

-- Then the sub-directory, where the artifacts are gone.
abbrev pub then_remove : Str → Str → ℕ × Result (Unit {0}) × Sys → ℕ × Result (Unit {0}) × Sys
then_remove dir sub (removed, err e, s) = (removed, err e, s)
then_remove dir sub (removed, ok u, s) =
    let (n, r, s') = remove_if_present dir sub s in (removed + n, r, s')

unfoldable pub wipe_certs : Str → Sys → ℕ × Result (Unit {0}) × Sys
unfolding remove_artifacts remove_if_present
wipe_certs dir s = then_remove dir (lit "archive") (remove_artifacts dir 0 artifact_names s)

unfoldable pub wipe : Str → Sys → ℕ × Result (Unit {0}) × Sys
unfolding wipe_certs
wipe dir s = then_remove dir (lit "accounts") (wipe_certs dir s)

unfoldable pub read_current_cert : Str → Exec Str
read_current_cert dir = read_file (in_dir dir cert_file)

abbrev names_of : Result (List Str) × Sys → List Str × Sys
names_of (ok names, s) = (names, s)
names_of (err e, s) = ([], s)

unfoldable pub count_accounts : Str → Sys → ℕ × Sys
unfolding subdirs
count_accounts dir s =
    let (names, s') = names_of (subdirs (in_dir dir (lit "accounts")) s) in (length names, s')

unfoldable pub list_archive : Str → Sys → List Str × Sys
unfolding subdirs
list_archive dir s = names_of (subdirs (in_dir dir (lit "archive")) s)
