-- ===== src/Os/Calls.antt =====
-- The system calls that the program makes, each with the fault that the environment chose for it.
use syscert.Base.{
  ℕ, ◌+◌, ◌*◌, ◌/◌, ◌%◌, ◌^◌, Bool, true, false, ◌&&◌, Option, none, some, List, [], ◌∷◌, ◌++◌,
  take, if◌then◌else◌,
}
use syscert.Go.Strings.{Str, str_eq, itoa}
use syscert.Go.Filepath.{FilePath}
use syscert.Os.{
  enoent, eexist, enotdir, eisdir, sys, ok, err, Meta, Node, file, directory, Fs, lookup, insert,
  erase, Fault, Sys, Exec, ◌>>◌, next_fault, advance, call, publish, is_dir,
}

-- os.Stat: the node, the root being a directory.
abbrev pub stat_node : Option Node → Exec Node
stat_node none s = (err (sys enoent), s)
stat_node (some n) s = (ok n, s)

unfoldable pub stat : FilePath → Exec Node
unfolding call
stat p = call (λ s. stat_node (lookup p s.fs) s)

abbrev pub read_node : Option Node → Exec Str
read_node none s = (err (sys enoent), s)
read_node (some (directory m)) s = (err (sys eisdir), s)
read_node (some (file content m)) s = (ok content, s)

-- os.ReadFile
unfoldable pub read_file : FilePath → Exec Str
unfolding call
read_file p = call (λ s. read_node (lookup p s.fs) s)

-- The name that os.CreateTemp makes of a pattern with one star.
unfoldable pub temp_name : Str → Str → ℕ → Str
temp_name before after n = before ++ (itoa n ++ after)

abbrev pub fresh_meta : ℕ → Sys → Meta
fresh_meta mode s = record { mode = mode; uid = s.host.euid; gid = s.host.egid; label = [] }

abbrev pub is_some : {A : Type 0} → Option A → Bool
is_some none = false
is_some (some a) = true

-- The new file at `p`, given whether its directory is there and whether the name is taken.
abbrev pub create_at : FilePath → Bool → Bool → Exec FilePath
create_at p false taken s = (err (sys enoent), s)
create_at p true true s = (err (sys eexist), s)
create_at p true false s = (
  ok p,
  publish (insert p (file [] (fresh_meta 0o600 s)) s.fs) (record s { nonce = s.nonce + 1 }),
)

-- os.CreateTemp: an empty file of mode 0600 under a name that nothing has. The call fails where the
-- directory is missing or the last name that was tried is taken.
unfoldable pub create_temp : FilePath → Str → Str → Exec FilePath
unfolding call
create_temp d before after = call λ s.
    let p = d ++ (temp_name before after s.nonce ∷ []) in
    create_at p (is_dir d s.fs) (is_some (lookup p s.fs)) s

-- (*os.File).Write on a file just created: all of it, or the first bytes and an error.
abbrev pub write_node : FilePath → Str → Option Node → Sys → Sys
write_node p content none s = s
write_node p content (some (directory m)) s = s
write_node p content (some (file old m)) s = publish (insert p (file content m) s.fs) s

abbrev pub write_done : FilePath → Str → Option Fault → Exec (Unit {0})
write_done p content none s = (ok tt, write_node p content (lookup p s.fs) s)
write_done p content (some f) s =
    (err (sys f.errno), write_node p (take f.written content) (lookup p s.fs) s)

unfoldable pub write_open : FilePath → Str → Exec (Unit {0})
write_open p content s = write_done p content (next_fault s.faults) (advance s)

-- (*os.File).Close
unfoldable pub close : FilePath → Exec (Unit {0})
unfolding call
close p = call (λ s. (ok tt, s))

abbrev pub change_meta : (Meta → Meta) → Node → Node
change_meta f (file content m) = file content (f m)
change_meta f (directory m) = directory (f m)

abbrev pub update_node : FilePath → (Meta → Meta) → Option Node → Exec (Unit {0})
update_node p f none s = (err (sys enoent), s)
update_node p f (some n) s = (ok tt, publish (insert p (change_meta f n) s.fs) s)

-- What the mode of a system call keeps of an os.FileMode: the permission bits, and Go's own bits for
-- setuid, setgid and sticky.
unfoldable pub file_mode : ℕ → ℕ
file_mode m = m % 512 + (m / 2 ^ 23 % 2 * 2048 + (m / 2 ^ 22 % 2 * 1024 + m / 2 ^ 20 % 2 * 512))

-- os.Chmod, with the mode that the system call gets.
unfoldable pub chmod : FilePath → ℕ → Exec (Unit {0})
unfolding call
chmod p mode = call (λ s. update_node p (λ m. record m { mode = mode }) (lookup p s.fs) s)

abbrev pub or_keep : Option ℕ → ℕ → ℕ
or_keep none old = old
or_keep (some n) old = n

-- os.Chown; `none` is -1, which leaves that owner alone.
unfoldable pub chown : FilePath → Option ℕ → Option ℕ → Exec (Unit {0})
unfolding call
chown p uid gid = call λ s.
    update_node p (λ m. record m { uid = or_keep uid m.uid; gid = or_keep gid m.gid })
      (lookup p s.fs) s

-- chcon -t
unfoldable pub chcon : FilePath → Str → Exec (Unit {0})
unfolding call
chcon p context = call λ s. update_node p (λ m. record m { label = context }) (lookup p s.fs) s

abbrev pub rename_node : FilePath → FilePath → Option Node → Option Node → Exec (Unit {0})
rename_node p q none old s = (err (sys enoent), s)
rename_node p q (some n) (some (directory m)) s = (err (sys eexist), s)
rename_node p q (some n) old s = (ok tt, publish (insert q n (erase p s.fs)) s)

-- os.Rename of a file: one step, in which the new name gets the node.
unfoldable pub rename : FilePath → FilePath → Exec (Unit {0})
unfolding call
rename p q = call (λ s. rename_node p q (lookup p s.fs) (lookup q s.fs) s)

abbrev pub remove_node : FilePath → Option Node → Exec (Unit {0})
remove_node p none s = (err (sys enoent), s)
remove_node p (some n) s = (ok tt, publish (erase p s.fs) s)

-- os.Remove of a file.
unfoldable pub remove : FilePath → Exec (Unit {0})
unfolding call
remove p = call (λ s. remove_node p (lookup p s.fs) s)

-- defer f(): the result of the body stands, whatever the deferred call returns.
unfoldable pub deferring : {A : Type 0} → Exec (Unit {0}) → Exec A → Exec A
deferring after body s = let (r, s') = body s in (r, (after s').1)

-- The nodes of the directories on the way to `q`, those that are missing made with a mode.
abbrev pub make_dir : FilePath → Meta → Fs → Option Node → Fs
make_dir p m fs none = insert p (directory m) fs
make_dir p m fs (some n) = fs

unfoldable pub make_dirs : FilePath → FilePath → Meta → Fs → Fs
make_dirs done [] m fs = fs
make_dirs done (c ∷ rest) m fs =
    let here = done ++ (c ∷ []) in make_dirs here rest m (make_dir here m fs (lookup here fs))

abbrev pub is_file_node : Option Node → Bool
is_file_node (some (file content m)) = true
is_file_node _ = false

-- os.MkdirAll: nothing where the directory is there, an error where a file has its name.
unfoldable pub mkdir_all : FilePath → ℕ → Exec (Unit {0})
unfolding call make_dirs
mkdir_all p mode = call λ s.
    if is_file_node (lookup p s.fs)
    then (err (sys enotdir), s)
    else (ok tt, publish (make_dirs [] p (fresh_meta mode s) s.fs) s)

unfoldable pub is_prefix : FilePath → FilePath → Bool
is_prefix [] q = true
is_prefix (a ∷ p) [] = false
is_prefix (a ∷ p) (b ∷ q) = str_eq a b && is_prefix p q

-- The files outside the tree at `p`.
unfoldable pub without_tree : FilePath → Fs → Fs
without_tree p [] = []
without_tree p ((q, n) ∷ fs) =
    let rest = without_tree p fs in if is_prefix p q then rest else (q, n) ∷ rest

-- os.RemoveAll; a failing call removes nothing.
unfoldable pub remove_all : FilePath → Exec (Unit {0})
unfolding call
remove_all p = call (λ s. (ok tt, publish (without_tree p s.fs) s))

-- The name of `q` directly below `p`.
unfoldable pub child_name : FilePath → FilePath → Option Str
child_name p [] = none
child_name [] (b ∷ []) = some b
child_name [] (b ∷ c ∷ q) = none
child_name (a ∷ p) (b ∷ q) = if str_eq a b then child_name p q else none

abbrev child_dir : Option Str → Node → List Str → List Str
child_dir (some b) (directory m) rest = b ∷ rest
child_dir _ _ rest = rest

-- The directories that os.ReadDir lists in `p`.
unfoldable pub child_dirs : FilePath → Fs → List Str
unfolding child_name
child_dirs p [] = []
child_dirs p ((q, n) ∷ fs) = child_dir (child_name p q) n (child_dirs p fs)

abbrev pub opened : FilePath → ℕ → Option Node → Exec (Unit {0})
opened p mode none s = (ok tt, publish (insert p (file [] (fresh_meta mode s)) s.fs) s)
opened p mode (some (file old m)) s = (ok tt, publish (insert p (file [] m) s.fs) s)
opened p mode (some (directory m)) s = (err (sys eisdir), s)

-- os.WriteFile: the file is emptied or made, and then written.
unfoldable pub write_file : FilePath → Str → ℕ → Exec (Unit {0})
unfolding call write_open
write_file p content mode = do call λ s. opened p mode (lookup p s.fs) s; write_open p content
