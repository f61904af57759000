-- ===== src/Distribute/Received.antt =====
-- What one delivery of internal/distribute/distribute.go leaves at its target, and elsewhere.
use syscert.Base.{
  ℕ, ◌≡◌, ◌≢◌, refl, sym, ◌∙◌, Option, none, some, [], ◌∷◌, not, true, false, ◌&&◌, Bool,
  if◌then◌else◌,
}
use syscert.Go.Strings.{Str, is_empty}
use syscert.Go.Filepath.{FilePath, resolve, in_dir}
use syscert.Os.{wrapping, Node, file, Meta, ok, Error, Sys, Exec, pure, raise}
use syscert.Os.Calls.{chcon}
use syscert.Os.Triples.{
  Outcome-if, Triple, Triple-pure, Triple-raise, Triple-bind, Triple-wrapping, Triple-given,
  Triple-map,
}
use syscert.Os.Holds.{
  Holds, Finds, Anything, Ensures, chcon-Holds, chcon-Finds, read_file-content, read_file-Finds,
}
use syscert.Atomicfile.Names.{IsPlainPath, plain-ne}
use syscert.Atomicfile.Holds.{on_return}
use syscert.Config.{DistributeTarget}
use syscert.Distribute.{
  target_mode, parse_mode, look_up, owner_of, group_of, write_atomic, relabel, deliver,
}
use syscert.Distribute.Placement.{write_atomic_placed}

module _ (path content : Str) (mode : ℕ) (uid gid : Option ℕ)
    (plain : IsPlainPath (resolve path)) where
  write_atomic-Holds :
      Ensures Anything (write_atomic path content mode uid gid) (Holds (resolve path) content mode)
  write_atomic-Holds = record {
    at = λ s h.
        on_return _ _ (Holds (resolve path) content mode) _ _ (λ a d. (_, d.target, refl))
          (write_atomic_placed s path content mode uid gid (plain-ne _ _ s.nonce plain));
  }

  write_atomic-Finds :
      (q : FilePath) (x : Option Node)
      → IsPlainPath q
      → resolve path ≢ q
      → Ensures (Finds q x) (write_atomic path content mode uid gid) (Finds q x)
  write_atomic-Finds q x other ne = record {
    at = λ s h.
        on_return _ _ (Finds q x) _ _
          (λ a d. d.same q (plain-ne _ _ s.nonce other) (λ e. ne (sym e)) ∙ h)
          (write_atomic_placed s path content mode uid gid (plain-ne _ _ s.nonce plain));
  }

-- A value that may be missing.
or_raise-Ensures :
    (P : Sys → Type 0) (e : Error) (o : Option ℕ)
    → Triple P
        (elim o as (λ _. Exec ℕ) [ none ↦ raise e | some m ↦ pure m ])
        (λ m s. (o ≡ some m) × P s)
        Anything
or_raise-Ensures P e none = Triple-raise e (λ s h. tt)
or_raise-Ensures P e (some m) = Triple-pure m (λ s h. (refl, h))

look_up-Ensures :
    (P : Sys → Type 0) (ids : Str → Option ℕ) (e : Error) (name : Str)
    → Ensures P (look_up ids e name) P
unfolding look_up
look_up-Ensures P ids e name = go (is_empty name) (ids name)
  where
    go :
        (b : Bool) (o : Option ℕ)
        → Ensures P
            (if b
              then pure none
              else elim o as (λ _. Exec (Option ℕ)) [ none ↦ raise e | some n ↦ pure (some n) ])
            P
    go true o = Triple-pure none (λ s h. h)
    go false none = Triple-raise e (λ s h. tt)
    go false (some n) = Triple-pure (some n) (λ s h. h)

module _ (t : DistributeTarget) (P : Sys → Type 0) where
  relabel-Ensures : Ensures P (chcon (resolve t.path) t.selinux_context) P → Ensures P (relabel t) P
  unfolding relabel
  relabel-Ensures f = record {
    at = λ s h.
        Outcome-if (λ (_ : Unit {0}). P) Anything
          (not (is_empty t.selinux_context) && s.host.selinux)
          (wrapping "distribute %s: set SELinux context %q: %w" (t.path ∷ t.selinux_context ∷ [])
            (chcon (resolve t.path) t.selinux_context) s)
          (ok tt, s) ((Triple-wrapping _ _ _ f).at s h) h;
  }

  parse_mode-Ensures : Triple P (parse_mode t) (λ m s. (target_mode t ≡ some m) × P s) Anything
  unfolding parse_mode
  parse_mode-Ensures = or_raise-Ensures P _ (target_mode t)

  owner_of-Ensures : Ensures P (owner_of t) P
  unfolding owner_of
  owner_of-Ensures = record { at = λ s h. (look_up-Ensures P s.host.user_of _ t.owner).at s h }

  group_of-Ensures : Ensures P (group_of t) P
  unfolding group_of
  group_of-Ensures = record { at = λ s h. (look_up-Ensures P s.host.group_of _ t.group).at s h }

-- The target's file holds, under the target's mode, what the node `x` of the store holds.
abbrev pub Copied : DistributeTarget → Option Node → Sys → Type 0
Copied t x s =
    (content : Str) × (m : Meta) × (x ≡ some (file content m))
    × (mode : ℕ) × (target_mode t ≡ some mode)
    × Holds (resolve t.path) content mode s

module _ (d : Str) (t : DistributeTarget) (name : Str) (plain : IsPlainPath (resolve t.path)) where
  pub deliver-Copied :
      (x : Option Node) → Ensures (Finds (in_dir d name) x) (deliver d t name) (Copied t x)
  unfolding deliver
  deliver-Copied x =
      Triple-bind _ _ (Triple-wrapping _ _ _ (read_file-content (in_dir d name) x)) λ content.
        Triple-given _ _ λ found. Triple-bind _ _ (parse_mode-Ensures t Anything) λ mode.
          Triple-given _ _ λ right. Triple-bind _ _ (owner_of-Ensures t Anything) λ uid.
            Triple-bind _ _ (group_of-Ensures t Anything) λ gid.
              Triple-bind _ _ (write_atomic-Holds t.path content mode uid gid plain) λ _.
                Triple-map _ _ (λ _ s h. (content, found.0, found.1, mode, right, h))
                  (relabel-Ensures t (Holds (resolve t.path) content mode)
                    (chcon-Holds _ (resolve t.path) _ content mode))

  pub deliver-Finds :
      (q : FilePath) (x : Option Node)
      → IsPlainPath q
      → resolve t.path ≢ q
      → Ensures (Finds q x) (deliver d t name) (Finds q x)
  unfolding deliver
  deliver-Finds q x other ne =
      Triple-bind _ _ (Triple-wrapping _ _ _ (read_file-Finds (in_dir d name) q x)) λ content.
        Triple-bind _ _ (parse_mode-Ensures t (Finds q x)) λ mode. Triple-given _ _ λ right.
          Triple-bind _ _ (owner_of-Ensures t (Finds q x)) λ uid.
            Triple-bind _ _ (group_of-Ensures t (Finds q x)) λ gid.
              Triple-bind _ _ (write_atomic-Finds t.path content mode uid gid plain q x other ne)
                λ _. relabel-Ensures t (Finds q x) (chcon-Finds _ q _ x ne)
