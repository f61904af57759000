-- ===== src/Access.antt =====
-- cmd/syscert/storeaccess.go and cmd/syscert/targetaccess.go: what a command checks of the store and
-- of the target directories before it writes.
pub mod Report
use syscert.Base.{
  ℕ, true, ◌≡◌, ◌↔◌, not, Option, none, some, List, [], ◌∷◌, ◌++◌, arith, if◌then◌else◌, ◌==◌,
}
use syscert.Go.Strings.{Str, lit, itoa}
use syscert.Go.Filepath.{FilePath, resolve}
use syscert.Os.{Error, text, wrap, Result, ok, err, Node, file, directory, Sys, Exec, ◌>>=◌}
use syscert.Os.Calls.{stat, create_temp, close, remove}
use syscert.Distribute.{is_errno, is_read_only, is_permission}
use syscert.Store.Disk.{is_not_exist}
use syscert.Config.{Config}
use syscert.Systemdpaths.{output_dirs}

unfoldable pub store_access_problem : Str → ℕ → ℕ → Str → Option Error
store_access_problem path owner_uid euid owner =
    if euid == 0
    then (if not (owner_uid == 0)
        then some (
            text
              "store %s is owned by %s; running as root would create files %s can't renew — run as that user: sudo -u %s syscert …"
              (path ∷ owner ∷ owner ∷ owner ∷ []))
        else none)
    else if not (euid == owner_uid)
    then some (
        text
          "store %s is owned by %s; run syscert as that user or root (the systemd timer does this for you)"
          (path ∷ owner ∷ []))
    else none

unfoldable pub owner_name : Sys → ℕ → Str
owner_name s uid = elim (s.host.name_of uid) [ some n ↦ n | none ↦ itoa uid ]

abbrev pub node_uid : Node → ℕ
node_uid (file content m) = m.uid
node_uid (directory m) = m.uid

-- The rest of checkStoreAccess after the stat: a problem, or none.
unfoldable pub store_access_of : Str → Sys → Result Node → Option Error
unfolding owner_name store_access_problem
store_access_of path s (err e) =
    if is_errno is_not_exist e then none else some (wrap "stat store %s: %w" (path ∷ []) e)
store_access_of path s (ok n) =
    store_access_problem path (node_uid n) s.host.euid (owner_name s (node_uid n))

unfoldable pub check_store_access : Str → Sys → Option Error × Sys
unfolding store_access_of
check_store_access path s = let (r, s') = stat (resolve path) s in (store_access_of path s' r, s')

store_access_problem-none :
    (path : Str) (owner_uid euid : ℕ) (owner : Str)
    → (store_access_problem path owner_uid euid owner ≡ none) ↔ (owner_uid ≡ euid)
unfolding store_access_problem
store_access_problem-none path owner_uid euid owner = ground arith

-- What the stat of the store says for the guard to pass: there is no store, or the user of the
-- process owns it.
abbrev pub IsOpenTo : Result Node × Sys → Type 0
IsOpenTo (err e, s) = is_errno is_not_exist e ≡ true
IsOpenTo (ok n, s) = node_uid n ≡ s.host.euid

-- The guard finds no problem exactly if the store does not exist or is owned by the user of the
-- process: root passes no store of another user, and an error of the stat other than not-exist is a
-- problem.
pub check_store_access-none_iff :
    (path : Str) (s : Sys)
    → ((check_store_access path s).0 ≡ none) ↔ IsOpenTo (stat (resolve path) s)
unfolding check_store_access store_access_of
check_store_access-none_iff path s = go (stat (resolve path) s)
  where
    go : (r : Result Node × Sys) → (store_access_of path r.1 r.0 ≡ none) ↔ IsOpenTo r
    go (err e, t) = ground arith
    go (ok n, t) =
        store_access_problem-none path (node_uid n) t.host.euid (owner_name t (node_uid n))

unfoldable pub target_access_problem : Str → Result (Unit {0}) → Str → Option Error
target_access_problem dir (ok u) run_as = none
target_access_problem dir (err e) run_as =
    if is_errno is_read_only e
    then some (
        text
          "%s is read-only under the service sandbox (ProtectSystem=strict); grant it with 'sudo syscert systemd-paths --write' then 'sudo systemctl daemon-reload'"
          (dir ∷ []))
    else if is_errno is_not_exist e
    then some (text "%s does not exist; create it before distributing there" (dir ∷ []))
    else if is_errno is_permission e
    then some (
        text "%s is not writable by user %s; grant it with 'sudo setfacl -m u:%s:rwx %s'"
          (dir ∷ run_as ∷ run_as ∷ dir ∷ []))
    else some (wrap "%s is not writable: %v" (dir ∷ []) e)

-- The result of the close is dropped.
unfoldable pub close_and_remove : FilePath → Exec (Unit {0})
close_and_remove p s = remove p (close p s).1

unfoldable pub probe_dir : Str → Exec (Unit {0})
unfolding close_and_remove
probe_dir dir = do f ← create_temp (resolve dir) (lit ".syscert-probe-") []; close_and_remove f

abbrev pub problem_list : Option Error → List Error
problem_list none = []
problem_list (some e) = e ∷ []

unfoldable pub check_dirs : Str → List Str → Sys → List Error × Sys
unfolding probe_dir target_access_problem
check_dirs run_as [] s = ([], s)
check_dirs run_as (d ∷ ds) s =
    let (r, s') = probe_dir d s in
    let (problems, s'') = check_dirs run_as ds s' in
    (problem_list (target_access_problem d r run_as) ++ problems, s'')

unfoldable pub check_distribute_targets : Config → Sys → List Error × Sys
unfolding check_dirs owner_name
check_distribute_targets cfg s = check_dirs (owner_name s s.host.euid) (output_dirs cfg) s
