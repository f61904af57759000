-- ===== src/Command/Grants.antt =====
-- cmd/syscert/systemdpaths.go: the command that installs the drop-in.
use syscert.Base.{
  ℕ, ◌≡◌, ◌≢◌, refl, ap, subst, ◌⊎◌, Bool, true, false, not, ◌==◌, Option, none, some, List, [],
  ◌∷◌, All, if◌then◌else◌, arith,
}
use Prim.Native.String.{String}
use syscert.Go.Strings.{Str, lit, str_eq}
use syscert.Go.Filepath.{FilePath, resolve, in_dir}
use syscert.Os.{Result, ok, err, Sys}
use syscert.Os.Calls.{mkdir_all, write_file}
use syscert.Os.Writes.{HasContent, write_file-ok}
use syscert.Config.{Config}
use syscert.Systemdpaths.{
  distribute_dirs, partition_grant_dirs, unsafe_grant_dir, refuse, place_dir, drop_in_content,
}
use syscert.Systemdpaths.Safe.{IsSafe}
use syscert.Systemdpaths.Grant.{partition-Granted}
use syscert.Command.{Runtime, Args, Program, load_config}

abbrev pub drop_in_dir : Str
drop_in_dir = lit "/etc/systemd/system/syscert.service.d"

abbrev pub drop_in_file : Str
drop_in_file = lit "10-distribute-paths.conf"

abbrev pub drop_in_path : FilePath
drop_in_path = in_dir drop_in_dir drop_in_file

abbrev pub written : Result (Unit {0}) × Sys → ℕ × Sys
written (ok u, s) = (0, s)
written (err e, s) = (1, s)

abbrev pub dir_made : Str → Result (Unit {0}) × Sys → ℕ × Sys
dir_made content (ok u, s) = written (write_file drop_in_path content 0o644 s)
dir_made content (err e, s) = (1, s)

abbrev pub unrefused : List Str → List (Str × String) → Sys → ℕ × Sys
unrefused dirs (r ∷ refused) s = (1, s)
unrefused dirs [] s = dir_made (drop_in_content dirs) (mkdir_all (resolve drop_in_dir) 0o755 s)

-- With --write, given the directories and the refusals.
abbrev pub install_drop_in : List Str → List (Str × String) → Sys → ℕ × Sys
install_drop_in dirs refused s = if not (s.host.euid == 0) then (1, s) else unrefused dirs refused s

abbrev pub granting : Bool → Bool → Result Config × Sys → ℕ × Sys
granting write dirs_only (err e, s) = (2, s)
granting write dirs_only (ok cfg, s) =
    let (dirs, refused) = partition_grant_dirs (distribute_dirs cfg) cfg.store.path in
    if dirs_only then (0, s) else if not write then (0, s) else install_drop_in dirs refused s

-- Without --write it only prints.
unfoldable pub cmd_systemd_paths : Runtime → Args → Bool → Bool → Program
unfolding load_config
cmd_systemd_paths w a write dirs_only s =
    if not a.parsed then (2, s) else granting write dirs_only (load_config w a.config_path s)

-- The drop-in is installed with exactly the directories that the config needs.
pub record IsInstalled (cfg : Config) (t u : Sys) : Type 0 where
  pub root : t.host.euid ≡ 0
  pub safe : All (λ d. (d ≡ cfg.store.path) ⊎ IsSafe d) (distribute_dirs cfg)
  pub content : HasContent drop_in_path (drop_in_content (distribute_dirs cfg)) u.fs

written-ok :
    (content : Str) (s : Sys)
    → (written (write_file drop_in_path content 0o644 s)).0 ≡ 0
    → HasContent drop_in_path content (written (write_file drop_in_path content 0o644 s)).1.fs
written-ok content s =
    go (write_file drop_in_path content 0o644 s) (write_file-ok drop_in_path content 0o644 s)
  where
    go :
        (r : Result (Unit {0}) × Sys)
        → (r.0 ≡ ok tt → HasContent drop_in_path content r.1.fs)
        → (written r).0 ≡ 0
        → HasContent drop_in_path content (written r).1.fs
    go (ok tt, t) f h = f refl
    go (err e, t) f h = cc h

dir_made-ok :
    (content : Str) (r : Result (Unit {0}) × Sys)
    → (dir_made content r).0 ≡ 0
    → HasContent drop_in_path content (dir_made content r).1.fs
dir_made-ok content (ok u, s) h = written-ok content s h
dir_made-ok content (err e, s) h = cc h

refuse-some : (d : Str) (why : String) (rs : List (Str × String)) → refuse d why rs ≢ []
unfolding refuse
refuse-some d why [] e = cc e
refuse-some d why ((k, w) ∷ rs) e = ground arith

-- With no refusal every directory is granted.
granted_all :
    (ds : List Str) (store : Str)
    → (partition_grant_dirs ds store).1 ≡ []
    → (partition_grant_dirs ds store).0 ≡ ds
unfolding partition_grant_dirs place_dir
granted_all [] store h = refl
granted_all (d ∷ ds) store h =
    go (if str_eq d store then none else unsafe_grant_dir d) (partition_grant_dirs ds store)
      (granted_all ds store) h
  where
    go :
        (why : Option String) (rest : List Str × List (Str × String))
        → (rest.1 ≡ [] → rest.0 ≡ ds)
        → (place_dir d why rest).1 ≡ []
        → (place_dir d why rest).0 ≡ d ∷ ds
    go none rest f e = ap (◌∷◌ d) (f e)
    go (some why) rest f e = absurd (refuse-some d why rest.1 e)

installed :
    (cfg : Config) (dirs : List Str) (refused : List (Str × String)) (t : Sys)
    → (refused ≡ [] → dirs ≡ distribute_dirs cfg)
    → All (λ d. (d ≡ cfg.store.path) ⊎ IsSafe d) dirs
    → (install_drop_in dirs refused t).0 ≡ 0
    → IsInstalled cfg t (install_drop_in dirs refused t).1
installed cfg dirs refused t all safe = go (t.host.euid == 0) (λ e. ground arith) refused all
  where
    go :
        (root : Bool)
        → (root ≡ true → t.host.euid ≡ 0)
        → (refused : List (Str × String)) → (refused ≡ [] → dirs ≡ distribute_dirs cfg)
        → (if not root then (1, t) else unrefused dirs refused t).0 ≡ 0
        → IsInstalled cfg t (if not root then (1, t) else unrefused dirs refused t).1
    go false is_root refused all h = cc h
    go true is_root (r ∷ refused) all h = cc h
    go true is_root [] all h = record {
      root = is_root refl;
      safe = subst (All (λ d. (d ≡ cfg.store.path) ⊎ IsSafe d)) (all refl) safe;
      content =
          subst (λ ds. HasContent drop_in_path (drop_in_content ds) (unrefused dirs [] t).1.fs)
            (all refl)
            (dir_made-ok (drop_in_content dirs) (mkdir_all (resolve drop_in_dir) 0o755 t) h);
    }

-- `systemd-paths --write`, its flags parsed and its config loaded, exits with 0 only as root and
-- with every directory that the config needs being the store or safe, and then the drop-in holds
-- the grant of exactly these.
pub cmd_systemd_paths-installs :
    (w : Runtime) (a : Args) (cfg : Config) (s t : Sys)
    → load_config w a.config_path s ≡ (ok cfg, t)
    → a.parsed ≡ true
    → (cmd_systemd_paths w a true false s).0 ≡ 0
    → IsInstalled cfg t (cmd_systemd_paths w a true false s).1
unfolding cmd_systemd_paths
cmd_systemd_paths-installs w a cfg s t loaded parsed =
    rw (parsed, loaded)
      (installed cfg (partition_grant_dirs (distribute_dirs cfg) cfg.store.path).0
        (partition_grant_dirs (distribute_dirs cfg) cfg.store.path).1 t
        (granted_all (distribute_dirs cfg) cfg.store.path)
        (partition-Granted (distribute_dirs cfg) cfg.store.path))
