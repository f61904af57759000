-- ===== src/Distribute/Served.antt =====
-- A delivery of internal/distribute/distribute.go that nothing hinders succeeds.
use syscert.Base.{
  ℕ, ◌≡◌, refl, sym, ap, subst, ◌∙◌, Bool, true, false, not, ◌&&◌, Option, none, some, [], ◌∷◌,
  if◌then◌else◌,
}
use syscert.Go.Strings.{Str, is_empty}
use syscert.Go.Filepath.{FilePath, resolve, in_dir}
use syscert.Os.{ok, Error, Meta, file, lookup, Host, Sys, Exec, pure, raise, wrapping, next_fault}
use syscert.Os.Calls.{chown, chcon}
use syscert.Os.Progress.{
  IsKnown, Returns, Returns-pure, Returns-wrapping, advance-none, read_unfaulted, bound, wrapped,
}
use syscert.Atomicfile.{run_prepare}
use syscert.Atomicfile.States.{temp_path, Staged}
use syscert.Atomicfile.Names.{IsPlainPath, plain-ne}
use syscert.Atomicfile.Atomic.{temp_meta}
use syscert.Atomicfile.Progress.{update-Returns}
use syscert.Atomicfile.Returns.{IsClear, CanPlace, Placed, write-Placed}
use syscert.Atomicfile.Updates.{updated, update-eq, updated-Placed, updated-IsClear}
use syscert.Config.{DistributeTarget}
use syscert.Distribute.{
  artifact_file, target_mode, parse_mode, look_up, owner_of, group_of, chown_to, explained,
  write_atomic, relabel, deliver, one,
}
use syscert.Distribute.Placement.{placed_meta, chown_prepared}

chown-Returns :
    (p tmp : FilePath) (s0 : Sys) (h : Host) (content : Str) (m : Meta) (uid gid : Option ℕ)
    → Returns h (Staged p tmp s0 content m) (run_prepare (chown_to uid gid) tmp)
unfolding run_prepare chown_to chown
chown-Returns p tmp s0 h content m none none = Returns-pure h (Staged p tmp s0 content m) tt
chown-Returns p tmp s0 h content m (some u) gid =
    Returns-wrapping h (Staged p tmp s0 content m) _ _ _ (update-Returns p tmp s0 h content m _)
chown-Returns p tmp s0 h content m none (some g) =
    Returns-wrapping h (Staged p tmp s0 content m) _ _ _ (update-Returns p tmp s0 h content m _)

known :
    (ids : Str → Option ℕ) (e : Error) (name : Str) (s : Sys)
    → IsKnown ids name
    → (o : Option ℕ) × (look_up ids e name s ≡ (ok o, s))
unfolding look_up pure
known ids e name s k = go (is_empty name) (ids name) k
  where
    go :
        (b : Bool) (i : Option ℕ)
        → (b ≡ false → (n : ℕ) × (i ≡ some n))
        → (o : Option ℕ) × ((if b
                then pure none
                else elim i as (λ _. Exec (Option ℕ)) [ none ↦ raise e | some n ↦ pure (some n) ])
              s
            ≡ (ok o, s))
    go true i k = (none, refl)
    go false (some n) k = (some n, refl)
    go false none k = cc ((k refl).1)

module _ (h : Host) (p : FilePath) (content : Str) (s0 : Sys) where
  -- The path holds the content under some owner and label and this mode, and nothing hinders the next call.
  pub record Arrived (mode : ℕ) (u : Sys) : Type 0 where
    pub owner : Meta
    pub placed : Placed p content owner s0 u
    pub right : owner.mode ≡ mode
    pub clear : IsClear h u

write_atomic-returns :
    (h : Host) (path content : Str) (mode : ℕ) (uid gid : Option ℕ) (s : Sys)
    → IsClear h s
    → CanPlace (resolve path) s
    → (u : Sys) × (write_atomic path content mode uid gid s ≡ (ok tt, u))
      × Arrived h (resolve path) content s mode u
unfolding write_atomic explained
write_atomic-returns h path content mode uid gid s c can =
    let p = resolve path in
    let apart = plain-ne p p s.nonce can.plain in
    let (u, e, placed, clear) =
      write-Placed p content mode (placed_meta h mode uid gid) (chown_to uid gid) s h
        (chown_prepared p s s.nonce h apart content mode uid gid)
        (chown-Returns p (temp_path p s.nonce) s h content (record (temp_meta h) { mode = mode })
          uid gid)
        c can in
    (
      u,
      ap (λ r. explained path r.0 r.1) e,
      record { owner = placed_meta h mode uid gid; placed = placed; right = refl; clear = clear },
    )

module _ (h : Host) (t : DistributeTarget) (content : Str) (s0 : Sys) (mode : ℕ) (u : Sys)
    (a : Arrived h (resolve t.path) content s0 mode u) (plain : IsPlainPath (resolve t.path)) where
  labelled_as : Meta → Meta
  labelled_as m = record m { label = t.selinux_context }

  chcon-eq :
      chcon (resolve t.path) t.selinux_context u
      ≡ (ok tt, updated h (resolve t.path) content a.owner s0 u a.placed a.clear labelled_as)
  unfolding chcon labelled_as
  chcon-eq = update-eq h (resolve t.path) content a.owner s0 u a.placed a.clear labelled_as

  labelled-Arrived :
      Arrived h
        (resolve t.path)
        content
        s0
        mode
        (updated h (resolve t.path) content a.owner s0 u a.placed a.clear labelled_as)
  unfolding labelled_as
  labelled-Arrived = record {
    owner = labelled_as a.owner;
    placed = updated-Placed h (resolve t.path) content a.owner s0 u a.placed a.clear labelled_as;
    right = a.right;
    clear =
        updated-IsClear h (resolve t.path) content a.owner s0 u a.placed a.clear labelled_as plain;
  }

  relabel-returns :
      (v : Sys) × (relabel t u ≡ (ok tt, v)) × Arrived h (resolve t.path) content s0 mode v
  unfolding relabel
  relabel-returns = go (not (is_empty t.selinux_context) && u.host.selinux)
    where
      go :
          (b : Bool)
          → (v : Sys) × ((if b
                then wrapping "distribute %s: set SELinux context %q: %w"
                    (t.path ∷ t.selinux_context ∷ [])
                    (chcon (resolve t.path) t.selinux_context)
                    u
                else (ok tt, u))
              ≡ (ok tt, v))
            × Arrived h (resolve t.path) content s0 mode v
      go true = (_, wrapped _ _ _ _ _ _ chcon-eq, labelled-Arrived)
      go false = (u, refl, a)

-- The settings of a target that the program can use on the host.
pub record IsUsable (h : Host) (t : DistributeTarget) : Type 0 where
  pub name : Str
  pub named : artifact_file t.artifact ≡ some name
  pub mode : ℕ
  pub moded : target_mode t ≡ some mode
  pub owner : IsKnown h.user_of t.owner
  pub group : IsKnown h.group_of t.group

-- The store has the artifact, the settings can be used, and the file can be put there.
pub record CanServe (d : Str) (h : Host) (s : Sys) (t : DistributeTarget) : Type 0 where
  pub usable : IsUsable h t
  pub content : Str
  pub meta : Meta
  pub found : lookup (in_dir d usable.name) s.fs ≡ some (file content meta)
  pub place : CanPlace (resolve t.path) s

module _ (d : Str) (h : Host) (s : Sys) (t : DistributeTarget) (c : IsClear h s)
    (can : CanServe d h s t) where
  mode_read : parse_mode t s ≡ (ok can.usable.mode, s)
  unfolding parse_mode pure
  mode_read =
      ap
        (λ o.
          (elim o as (λ _. Exec ℕ) [
            | none ↦ raise (
                Error.wrap "distribute %s: invalid mode %q: %w" (t.path ∷ t.mode ∷ [])
                  (Error.text "strconv.ParseUint: parsing %q" (t.mode ∷ [])))
            | some m ↦ pure m
          ])
            s)
        can.usable.moded

  owner_known : (o : Option ℕ) × (owner_of t s ≡ (ok o, s))
  unfolding owner_of
  owner_known = known s.host.user_of _ t.owner s (λ e.
      subst (λ x. (n : ℕ) × (x.user_of t.owner ≡ some n)) (sym c.still.host) (can.usable.owner e))

  group_known : (o : Option ℕ) × (group_of t s ≡ (ok o, s))
  unfolding group_of
  group_known = known s.host.group_of _ t.group s (λ e.
      subst (λ x. (n : ℕ) × (x.group_of t.group ≡ some n)) (sym c.still.host) (can.usable.group e))

  deliver_steps :
      (uid gid : Option ℕ) (u v : Sys)
      → owner_of t s ≡ (ok uid, s)
      → group_of t s ≡ (ok gid, s)
      → write_atomic t.path can.content can.usable.mode uid gid s ≡ (ok tt, u)
      → relabel t u ≡ (ok tt, v)
      → deliver d t can.usable.name s ≡ (ok tt, v)
  unfolding deliver
  deliver_steps uid gid u v owner group placed labelled =
      bound _ _ can.content s s (
        wrapped _ _ _ _ s s (
          read_unfaulted (in_dir d can.usable.name) can.content s (can.meta, can.found)
            (ap next_fault c.still.faults)
          ∙ ap (λ x. (ok can.content, x)) (advance-none s c.still.faults)))
      ∙ bound (parse_mode t) _ can.usable.mode s s mode_read
      ∙ bound (owner_of t) _ uid s s owner
      ∙ bound (group_of t) _ gid s s group
      ∙ bound _ _ tt s u placed
      ∙ labelled

  pub one-returns :
      (u : Sys) × (one d t s ≡ (ok tt, u))
      × Arrived h (resolve t.path) can.content s can.usable.mode u
  unfolding one
  one-returns =
      let (uid, owner) = owner_known in
      let (gid, group) = group_known in
      let (u, placed, arrived) =
        write_atomic-returns h t.path can.content can.usable.mode uid gid s c can.place in
      let (v, labelled, last) =
        relabel-returns h t can.content s can.usable.mode u arrived can.place.plain in
      (
        v,
        ap
              (λ o.
                (elim o as (λ _. Exec (Unit {0})) [
                  | none ↦
                      raise
                        (Error.text "distribute %s: unknown artifact %q" (t.path ∷ t.artifact ∷ []))
                  | some name ↦ deliver d t name
                ])
                  s)
              can.usable.named
            ∙ deliver_steps uid gid u v owner group placed labelled,
        last,
      )
