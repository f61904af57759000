-- ===== src/Os/Dirs.antt =====
-- Making directories leaves what is there.
use syscert.Base.{
  ℕ, ◌≡◌, refl, ap, ◌∙◌, Bool-cases, inl, inr, Option, none, some, [], ◌∷◌, ◌++◌, if◌then◌else◌,
}
use syscert.Go.Filepath.{FilePath}
use syscert.Os.{sys, enotdir, ok, err, Fs, lookup, path_eq, directory, Node, Meta, publish, advance}
use syscert.Os.Calls.{mkdir_all, make_dirs, make_dir, fresh_meta, is_file_node}
use syscert.Os.Laws.{path_eq_iff, lookup-insert}
use syscert.Os.Triples.{Triple-call, Outcome-if}
use syscert.Os.Holds.{Finds, Anything, Ensures}

-- Making directories replaces nothing.
make_dirs-keeps :
    (done rest : FilePath) (m : Meta) (fs : Fs) (q : FilePath) (n : Node)
    → lookup q fs ≡ some n
    → lookup q (make_dirs done rest m fs) ≡ some n
unfolding make_dirs
make_dirs-keeps done [] m fs q n h = h
make_dirs-keeps done (c ∷ rest) m fs q n h =
    make_dirs-keeps (done ++ (c ∷ [])) rest m _ q n (one (lookup (done ++ (c ∷ [])) fs) refl)
  where
    one :
        (o : Option Node)
        → lookup (done ++ (c ∷ [])) fs ≡ o
        → lookup q (make_dir (done ++ (c ∷ [])) m fs o) ≡ some n
    one none e = elim (Bool-cases (path_eq (done ++ (c ∷ [])) q)) [
      | inl y ↦ absurd (cc (e, h, ap (λ r. lookup r fs) ((path_eq_iff (done ++ (c ∷ [])) q).0 y)))
      | inr other ↦ lookup-insert (done ++ (c ∷ [])) q (directory m) fs ∙ rw other h
    ]
    one (some x) e = h

pub mkdir_all-Finds :
    (p q : FilePath) (mode : ℕ) (n : Node)
    → Ensures (Finds q (some n)) (mkdir_all p mode) (Finds q (some n))
unfolding mkdir_all
mkdir_all-Finds p q mode n =
    Triple-call
      (λ s.
        if is_file_node (lookup p s.fs)
        then (err (sys enotdir), s)
        else (ok tt, publish (make_dirs [] p (fresh_meta mode s) s.fs) s))
      (λ s h. tt)
      (λ s h.
        Outcome-if (λ (_ : Unit {0}). Finds q (some n)) Anything (is_file_node (lookup p s.fs))
          (err (sys enotdir), advance s)
          (ok tt, publish (make_dirs [] p (fresh_meta mode s) s.fs) (advance s)) tt
          (make_dirs-keeps [] p (fresh_meta mode s) s.fs q n h))
