-- ===== src/Store/Snapped.antt =====
-- All copies of a snapshot, internal/store/store.go.
use syscert.Base.{
  All-map, ◌≡◌, ◌≢◌, refl, sym, ap, ◌∙◌, true, false, Option, none, some, List, [], ◌∷◌, ◌++◌, All,
}
use syscert.Go.Strings.{Str, lit, has_prefix, str_eq, str_ne}
use syscert.Go.Filepath.{FilePath, in_dir}
use syscert.Os.{ok, Meta, Node, file, directory, lookup, Host, Sys, is_dir_node}
use syscert.Os.Calls.{is_prefix}
use syscert.Atomicfile.Names.{IsPlain}
use syscert.Store.{artifact_names}
use syscert.Store.Disk.{archive_files}
use syscert.Store.Files.{beside-ne}
use syscert.Store.Dirs.{HasDir-is_dir}
use syscert.Store.Copies.{
  IsCopy, Kept, CanCopy, archive_files-cons, Copied, copied, plain_snoc, Kept-trans,
}

-- Different names, none of them that of a temporary file.
abbrev pub ArePlain : List Str → Type 0
ArePlain [] = Unit {0}
ArePlain (x ∷ xs) = IsPlain x × All (λ y. x ≢ y) xs × ArePlain xs

pub names-ArePlain : ArePlain artifact_names
unfolding has_prefix lit str_eq
names-ArePlain = (
  refl,
  (ne _ _ refl, (ne _ _ refl, (ne _ _ refl, (ne _ _ refl, tt)))),
  (
    refl,
    (ne _ _ refl, (ne _ _ refl, (ne _ _ refl, tt))),
    (refl, (ne _ _ refl, (ne _ _ refl, tt)), (refl, (ne _ _ refl, tt), (refl, tt, tt))),
  ),
)
  where
    ne : (a b : Str) → str_eq a b ≡ false → a ≢ b
    ne a b h = str_ne a b h

module _ (h : Host) (dir : Str) (root dest : FilePath)
    (below : (x : Str) → is_prefix root (dest ++ (x ∷ [])) ≡ true) where
  Copied-Kept : (name : Str) (s u : Sys) → Copied h dir dest name s u → Kept h root s u
  Copied-Kept name s u c = record {
    clear = c.clear;
    same = λ q out. c.same q (λ e. cc (ap (is_prefix root) e, out, below name));
  }

  copyable_later :
      (name : Str) (names : List Str) (s u : Sys)
      → Copied h dir dest name s u
      → CanCopy h dir dest (name ∷ names) s
      → All (λ y. name ≢ y) names
      → All (λ x. is_prefix root (in_dir dir x) ≡ false) names
      → CanCopy h dir dest names u
  copyable_later name names s u c can ne out = record {
    clear = c.clear;
    there =
        ap is_dir_node
          (c.same dest (λ e. cc (ap (λ x. is_dir_node (lookup x s.fs)) e, can.there, can.slot.0)))
        ∙ can.there;
    source = sources names can.source.1 out;
    slot = slots names can.slot.1 ne;
  }
    where
      sources :
          (xs : List Str)
          → All (λ x. is_dir_node (lookup (in_dir dir x) s.fs) ≡ false) xs
          → All (λ x. is_prefix root (in_dir dir x) ≡ false) xs
          → All (λ x. is_dir_node (lookup (in_dir dir x) u.fs) ≡ false) xs
      sources [] f out = tt
      sources (x ∷ xs) f out = (
        ap is_dir_node ((Copied-Kept name s u c).same (in_dir dir x) out.0) ∙ f.0,
        sources xs f.1 out.1,
      )

      slots :
          (xs : List Str)
          → All (λ x. is_dir_node (lookup (dest ++ (x ∷ [])) s.fs) ≡ false) xs
          → All (λ y. name ≢ y) xs
          → All (λ x. is_dir_node (lookup (dest ++ (x ∷ [])) u.fs) ≡ false) xs
      slots [] f ne = tt
      slots (x ∷ xs) f ne = (
        ap is_dir_node (c.same (dest ++ (x ∷ [])) (λ e. beside-ne dest name x [] ne.0 (sym e)))
            ∙ f.0,
        slots xs f.1 ne.1,
      )

  -- What the copying of these names does.
  pub record Snapped (names : List Str) (s u : Sys) : Type 0 where
    pub kept : Kept h root s u
    pub beside :
        (q : FilePath) → All (λ x. q ≢ dest ++ (x ∷ [])) names → lookup q u.fs ≡ lookup q s.fs
    pub copies : All (λ x. IsCopy (in_dir dir x) (dest ++ (x ∷ [])) s u) names

  -- The later copies are those of what the store had at first.
  copies_first :
      (s u v : Sys) (names : List Str)
      → Kept h root s u
      → All (λ x. is_prefix root (in_dir dir x) ≡ false) names
      → All (λ x. IsCopy (in_dir dir x) (dest ++ (x ∷ [])) u v) names
      → All (λ x. IsCopy (in_dir dir x) (dest ++ (x ∷ [])) s v) names
  copies_first s u v [] k out c = tt
  copies_first s u v (x ∷ xs) k out c = (
    λ content m found. c.0 content m (k.same (in_dir dir x) out.0 ∙ found),
    copies_first s u v xs k out.1 c.1,
  )

  -- If the environment lets all calls through, no file has the name of a temporary one, the
  -- snapshot's directory is there, and no directory is in the place of an artifact or of its copy,
  -- then copying files that are not below the root of the snapshots, under different names, none of
  -- them that of a temporary file, returns; the snapshot has each of them with its content and the
  -- permission bits of its mode, and every other file is as it was.
  pub archive_files-Snapped :
      (names : List Str) (s : Sys)
      → ArePlain names
      → All (λ x. is_prefix root (in_dir dir x) ≡ false) names
      → CanCopy h dir dest names s
      → (u : Sys) × (archive_files dir dest names s ≡ (ok tt, u)) × Snapped names s u
  unfolding archive_files
  archive_files-Snapped [] s plain out can = (
    s,
    refl,
    record {
      kept = record { clear = can.clear; same = λ q out. refl };
      beside = λ q ne. refl;
      copies = tt;
    },
  )
  archive_files-Snapped (x ∷ xs) s plain out can =
      let (r, u, reads, made, c) =
        copied h dir dest x s can.clear (HasDir-is_dir dest s (dir_of (lookup dest s.fs) can.there))
          (plain_snoc dest x plain.0) can.source.0 can.slot.0 in
      let (v, rest, k) =
        archive_files-Snapped xs u plain.2 out.1 (copyable_later x xs s u c can plain.1 out.1) in
      let first = Copied-Kept x s u c in
      (
        v,
        archive_files-cons h dir dest x xs r s u reads made ∙ rest,
        record {
          kept = Kept-trans h root s u v first k.kept;
          beside = λ q ne. k.beside q ne.1 ∙ c.same q ne.0;
          copies = (
            λ content m found.
                let (n, there, right) = c.copy content m found in
                (n, k.beside (dest ++ (x ∷ [])) (others x xs plain.1) ∙ there, right),
            copies_first s u v xs first out.1 k.copies,
          );
        },
      )
    where
      others :
          (x : Str) (xs : List Str)
          → All (λ y. x ≢ y) xs
          → All (λ y. dest ++ (x ∷ []) ≢ dest ++ (y ∷ [])) xs
      others x xs ne = All-map _ _ xs (λ y n. beside-ne dest x y [] n) ne

      dir_of : (o : Option Node) → is_dir_node o ≡ true → (m : Meta) × (o ≡ some (directory m))
      dir_of none e = cc e
      dir_of (some (file c m)) e = cc e
      dir_of (some (directory m)) e = (m, refl)
