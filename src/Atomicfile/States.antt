-- ===== src/Atomicfile/States.antt =====
-- The states that an atomic write goes through.
use syscert.Base.{ℕ, ◌≡◌, ap, ◌≢◌, ◌⊎◌, some, List, [], ◌∷◌, ◌++◌, All, All-map}
use syscert.Go.Strings.{Str, lit}
use syscert.Go.Filepath.{FilePath}
use syscert.Os.{Meta, file, Fs, lookup, Sys, parent}
use syscert.Os.Calls.{temp_name}

-- The temporary file that the next call of os.CreateTemp for this target makes.
abbrev pub temp_path : FilePath → ℕ → FilePath
temp_path path n = parent path ++ (temp_name (lit ".syscert-") (lit ".tmp") n ∷ [])

-- The recorded states `new` are those of `old`, and before them only such as have P.
abbrev pub Since : (Fs → Type 0) → List Fs → List Fs → Type 0
Since P old new = (news : List Fs) × (new ≡ news ++ old) × All P news

pub Since-none : (P : Fs → Type 0) (old new : List Fs) → new ≡ old → Since P old new
Since-none P old new e = ([], e, tt)

pub Since-cons :
    (P : Fs → Type 0) (old new : List Fs) (fs : Fs)
    → P fs
    → Since P old new
    → Since P old (fs ∷ new)
Since-cons P old new fs here (news, e, all) = (fs ∷ news, ap (λ l. fs ∷ l) e, (here, all))

pub Since-map :
    (P Q : Fs → Type 0) (old new : List Fs)
    → ((fs : Fs) → P fs → Q fs)
    → Since P old new
    → Since Q old new
Since-map P Q old new f (news, e, all) = (news, e, All-map P Q news f all)

module _ (p tmp : FilePath) (s0 : Sys) where
  -- Nothing but the temporary file has changed, and nobody has seen the target change.
  pub record Untouched (s : Sys) : Type 0 where
    pub same : (q : FilePath) → q ≢ tmp → lookup q s.fs ≡ lookup q s0.fs
    pub history : Since (λ fs. lookup p fs ≡ lookup p s0.fs) s0.seen s.seen

  -- The temporary file holds `content` under `m`.
  pub record Staged (content : Str) (m : Meta) (s : Sys) : Type 0 where
    pub before : Untouched s
    pub node : lookup tmp s.fs ≡ some (file content m)

  -- The target holds `content` under `m`; nobody has seen it hold anything but that or what it was.
  pub record Replaced (content : Str) (m : Meta) (s : Sys) : Type 0 where
    pub same : (q : FilePath) → q ≢ tmp → q ≢ p → lookup q s.fs ≡ lookup q s0.fs
    pub target : lookup p s.fs ≡ some (file content m)
    pub history :
        Since
          (λ fs. (lookup p fs ≡ lookup p s0.fs) ⊎ (lookup p fs ≡ some (file content m)))
          s0.seen
          s.seen
