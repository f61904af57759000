-- ===== src/Os.antt =====
-- The host as the program sees it: a file system, accounts, and system calls that may fail. Each
-- call takes the next entry of a list of faults, which the environment chooses: `none` lets the call
-- do what it does, a fault makes it fail with that error, and an empty list lets all calls through.
-- `seen` records every file system that another process could have observed.
pub mod Calls
pub mod Laws
pub mod Frames
pub mod Writes
pub mod Holds
pub mod Dirs
pub mod Triples
pub mod Progress
use Prim.Native.String.{String}
use syscert.Base.{ℕ, Bool, true, false, ◌&&◌, Option, none, some, List, [], ◌∷◌, if◌then◌else◌}
use syscert.Go.Strings.{Str, str_eq}
use syscert.Go.Filepath.{FilePath}

pub data Errno : Type 0 where
  enoent eacces eperm erofs eexist enotdir eisdir other : Errno

-- fmt.Errorf with its format, the values put in, and the wrapped cause.
pub data Error : Type 0 where
  sys : Errno → Error
  text : String → List Str → Error
  wrap : String → List Str → Error → Error
  joined : Error → Error → Error

pub data Result {ℓ} (A : Type ℓ) : Type ℓ where
  ok : A → Result A
  err : Error → Result A

pub record Meta : Type 0 where
  pub mode : ℕ
  pub uid : ℕ
  pub gid : ℕ
  pub label : Str

pub data Node : Type 0 where
  file : Str → Meta → Node
  directory : Meta → Node

abbrev pub Fs : Type 0
Fs = List (FilePath × Node)

unfoldable pub path_eq : FilePath → FilePath → Bool
path_eq [] [] = true
path_eq [] (_ ∷ _) = false
path_eq (_ ∷ _) [] = false
path_eq (a ∷ p) (b ∷ q) = str_eq a b && path_eq p q

unfoldable pub lookup : FilePath → Fs → Option Node
lookup p [] = none
lookup p ((q, n) ∷ fs) = if path_eq q p then some n else lookup p fs

unfoldable pub insert : FilePath → Node → Fs → Fs
insert p n [] = (p, n) ∷ []
insert p n ((q, m) ∷ fs) =
    let rest = insert p n fs in if path_eq q p then (p, n) ∷ fs else (q, m) ∷ rest

unfoldable pub erase : FilePath → Fs → Fs
erase p [] = []
erase p ((q, m) ∷ fs) = let rest = erase p fs in if path_eq q p then rest else (q, m) ∷ rest

-- A call that the environment lets fail. `written` bytes reach the file if it is a write.
pub record Fault : Type 0 where
  pub errno : Errno
  pub written : ℕ

-- The accounts and settings that do not change during a run.
pub record Host : Type 0 where
  pub euid : ℕ
  pub egid : ℕ
  pub user_of : Str → Option ℕ
  pub group_of : Str → Option ℕ
  pub name_of : ℕ → Option Str
  pub selinux : Bool

pub record Sys : Type 0 where
  pub host : Host
  pub fs : Fs
  pub faults : List (Option Fault)
  pub nonce : ℕ
  pub seen : List Fs

abbrev pub Exec : Type 0 → Type 0
Exec A = Sys → Result A × Sys

unfoldable pub pure : {A : Type 0} → A → Exec A
pure a s = (ok a, s)

unfoldable pub raise : {A : Type 0} → Error → Exec A
raise e s = (err e, s)

abbrev pub continue : {A B : Type 0} → Result A → (A → Exec B) → Exec B
continue (ok a) f s = f a s
continue (err e) f s = (err e, s)

infixl 5 ◌>>=◌ ◌>>◌
unfoldable pub ◌>>=◌ : {A B : Type 0} → Exec A → (A → Exec B) → Exec B
unfolding pure raise
◌>>=◌ m f s = let (r, s') = m s in continue r f s'

abbrev pub ◌>>◌ : {A B : Type 0} → Exec A → Exec B → Exec B
m >> k = m >>= λ _. k

-- if err != nil { return fmt.Errorf(format, values..., err) }
unfoldable pub wrapping : {A : Type 0} → String → List Str → Exec A → Exec A
wrapping format values m s =
    let (r, s') = m s in elim r [ ok a ↦ (ok a, s') | err e ↦ (err (wrap format values e), s') ]

-- The fault of the next call.
abbrev pub next_fault : List (Option Fault) → Option Fault
next_fault [] = none
next_fault (f ∷ fs) = f

abbrev pub later_faults : List (Option Fault) → List (Option Fault)
later_faults [] = []
later_faults (f ∷ fs) = fs

abbrev pub advance : Sys → Sys
advance s = record s { faults = later_faults s.faults }

-- A call that changes nothing when it fails.
unfoldable pub call : {A : Type 0} → Exec A → Exec A
call act s = elim (next_fault s.faults) [
  | none ↦ act (advance s)
  | some f ↦ (err (sys f.errno), advance s)
]

-- The file system changes, and others can see it.
abbrev pub publish : Fs → Sys → Sys
publish fs s = record s { fs = fs; seen = fs ∷ s.seen }

abbrev pub is_dir_node : Option Node → Bool
is_dir_node (some (directory m)) = true
is_dir_node _ = false

-- The root is always there.
abbrev pub is_dir : FilePath → Fs → Bool
is_dir [] fs = true
is_dir (c ∷ p) fs = is_dir_node (lookup (c ∷ p) fs)

abbrev pub parent : FilePath → FilePath
parent [] = []
parent (c ∷ []) = []
parent (c ∷ d ∷ p) = c ∷ parent (d ∷ p)
