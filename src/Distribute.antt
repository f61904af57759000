-- ===== src/Distribute.antt =====
-- internal/distribute/distribute.go: copying artifacts of the store to their targets. The account
-- look-ups, the SELinux test and the system calls are those of the host (Os).
pub mod Modes
pub mod Delivery
pub mod Placement
pub mod Received
pub mod Targets
pub mod Served
pub mod Progress
use syscert.Base.{
  ℕ, Bool, true, false, ◌&&◌, ◌||◌, not, Option, none, some, List, [], ◌∷◌, ◌++◌, if◌then◌else◌,
}
use syscert.Go.Strings.{Str, lit, str_eq, is_empty, parse_octal, itoa}
use syscert.Go.Filepath.{resolve, in_dir, dir}
use syscert.Os.{
  Errno, eacces, eperm, erofs, Error, sys, text, wrap, joined, Result, ok, err, Sys, Exec, pure,
  raise, ◌>>=◌, ◌>>◌, wrapping,
}
use syscert.Os.Calls.{read_file, chown, chcon, is_some, file_mode}
use syscert.Atomicfile
use syscert.Atomicfile.{Prepare}
use syscert.Config.{DistributeTarget}

-- artifactFiles
unfoldable pub artifact_file : Str → Option Str
artifact_file a =
    if str_eq a (lit "cert")
    then some (lit "cert.pem")
    else if str_eq a (lit "privkey")
    then some (lit "privkey.pem")
    else if str_eq a (lit "chain")
    then some (lit "chain.pem")
    else if str_eq a (lit "fullchain")
    then some (lit "fullchain.pem")
    else if str_eq a (lit "bundle")
    then some (lit "bundle.pem")
    else none

unfoldable pub default_mode : Str → ℕ
default_mode artifact =
    if str_eq artifact (lit "privkey") || str_eq artifact (lit "bundle") then 0o600 else 0o644

-- The mode of a target as os.Chmod sets it: its own if it is set, else the default for its artifact.
unfoldable pub target_mode : DistributeTarget → Option ℕ
unfolding default_mode file_mode
target_mode t =
    if is_empty t.mode
    then some (default_mode t.artifact)
    else elim (parse_octal t.mode) [ none ↦ none | some m ↦ some (file_mode m) ]

unfoldable pub parse_mode : DistributeTarget → Exec ℕ
unfolding target_mode
parse_mode t = elim (target_mode t) [
  | none ↦ raise (
      wrap "distribute %s: invalid mode %q: %w" (t.path ∷ t.mode ∷ [])
        (text "strconv.ParseUint: parsing %q" (t.mode ∷ [])))
  | some m ↦ pure m
]

-- A numeric id by name, -1 (`none`) where no name is set.
unfoldable pub look_up : (Str → Option ℕ) → Error → Str → Exec (Option ℕ)
look_up ids e name =
    if is_empty name then pure none else elim (ids name) [ none ↦ raise e | some n ↦ pure (some n) ]

-- errors.Is(err, e)
unfoldable pub is_errno : (Errno → Bool) → Error → Bool
is_errno p (sys e) = p e
is_errno p (text m vs) = false
is_errno p (wrap m vs e) = is_errno p e
is_errno p (joined d e) = is_errno p d || is_errno p e

unfoldable pub is_read_only : Errno → Bool
is_read_only erofs = true
is_read_only _ = false

-- fs.ErrPermission is EACCES or EPERM.
unfoldable pub is_permission : Errno → Bool
is_permission eacces = true
is_permission eperm = true
is_permission _ = false

unfoldable pub running_user : Sys → Str
running_user s = elim (s.host.name_of s.host.euid) [ some n ↦ n | none ↦ itoa s.host.euid ]

unfoldable pub explain_write_error : Str → Sys → Error → Error
unfolding running_user
explain_write_error d s e =
    if is_errno is_read_only e
    then wrap
        "%s is read-only under the service sandbox (ProtectSystem=strict); grant it with 'sudo syscert systemd-paths --write' then 'sudo systemctl daemon-reload': %w"
        (d ∷ []) e
    else if is_errno is_permission e
    then wrap
        "%s is not writable by user %s (creating a file needs write on the directory; CAP_CHOWN does not grant that); grant it with 'sudo setfacl -m u:%s:rwx %s': %w"
        (d ∷ running_user s ∷ running_user s ∷ d ∷ []) e
    else e

-- %d of an id, where `none` is -1.
unfoldable pub id_text : Option ℕ → Str
id_text none = lit "-1"
id_text (some n) = itoa n

-- The chown callback, for ids of which at least one is set.
unfoldable pub chown_to : Option ℕ → Option ℕ → Prepare
chown_to uid gid =
    if is_some uid || is_some gid
    then some (λ tmp.
      wrapping "chown to %d:%d (need CAP_CHOWN or root): %w" (id_text uid ∷ id_text gid ∷ [])
        (chown tmp uid gid))
    else none

unfoldable pub explained : Str → Result (Unit {0}) → Exec (Unit {0})
explained path (ok u) s = (ok u, s)
explained path (err e) s =
    (err (wrap "distribute %s: %w" (path ∷ []) (explain_write_error (dir path) s e)), s)

unfoldable pub write_atomic : Str → Str → ℕ → Option ℕ → Option ℕ → Exec (Unit {0})
unfolding explained
write_atomic path content mode uid gid s =
    let (r, s') = Atomicfile.write (resolve path) content mode (chown_to uid gid) s in
    explained path r s'

unfoldable pub relabel : DistributeTarget → Exec (Unit {0})
relabel t s =
    if not (is_empty t.selinux_context) && s.host.selinux
    then wrapping "distribute %s: set SELinux context %q: %w" (t.path ∷ t.selinux_context ∷ [])
        (chcon (resolve t.path) t.selinux_context) s
    else (ok tt, s)

unfoldable pub owner_of : DistributeTarget → Exec (Option ℕ)
owner_of t s =
    look_up s.host.user_of
      (wrap "distribute %s: owner %q: %w" (t.path ∷ t.owner ∷ [])
        (text "unknown user" (t.owner ∷ [])))
      t.owner s

unfoldable pub group_of : DistributeTarget → Exec (Option ℕ)
group_of t s =
    look_up s.host.group_of
      (wrap "distribute %s: group %q: %w" (t.path ∷ t.group ∷ [])
        (text "unknown group" (t.group ∷ [])))
      t.group s

-- Delivery of one stored file.
unfoldable pub deliver : Str → DistributeTarget → Str → Exec (Unit {0})
deliver store_dir t file = do
  content ←
      wrapping "distribute %s: read %s: %w" (t.path ∷ file ∷ []) (read_file (in_dir store_dir file))
  mode ← parse_mode t
  uid ← owner_of t
  gid ← group_of t
  write_atomic t.path content mode uid gid
  relabel t

unfoldable pub one : Str → DistributeTarget → Exec (Unit {0})
unfolding artifact_file
one store_dir t = elim (artifact_file t.artifact) [
  | none ↦ raise (text "distribute %s: unknown artifact %q" (t.path ∷ t.artifact ∷ []))
  | some file ↦ deliver store_dir t file
]

-- `if err != nil { errs = append(errs, err) }`, at the front of the later errors.
abbrev pub error_list : Result (Unit {0}) → List Error
error_list (ok u) = []
error_list (err e) = e ∷ []

-- The loop of Run: the errors of the targets in order, each target tried.
unfoldable pub attempts : Str → List DistributeTarget → Sys → List Error × Sys
attempts store_dir [] s = ([], s)
attempts store_dir (t ∷ ts) s =
    let (r, s') = one store_dir t s in
    let (errs, s'') = attempts store_dir ts s' in (error_list r ++ errs, s'')

-- errors.Join
unfoldable pub join_errors : List Error → Result (Unit {0})
join_errors [] = ok tt
join_errors (e ∷ []) = err e
join_errors (e ∷ f ∷ es) = elim (join_errors (f ∷ es)) [ ok u ↦ err e | err d ↦ err (joined e d) ]

unfoldable pub run : Str → List DistributeTarget → Exec (Unit {0})
unfolding attempts join_errors
run store_dir targets s = let (errs, s') = attempts store_dir targets s in (join_errors errs, s')
