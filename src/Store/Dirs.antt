-- ===== src/Store/Dirs.antt =====
-- Making directories of which some are there.
use syscert.Base.{
  ℕ, ◌≡◌, ◌≢◌, refl, sym, ap, ◌∙◌, true, false, Option, none, some, [], ◌∷◌, ◌++◌, if◌then◌else◌,
  arith, append-nil, append_assoc,
}
use syscert.Go.Strings.{Str}
use syscert.Go.Filepath.{FilePath}
use syscert.Os.{
  sys, enotdir, ok, err, Meta, Node, file, directory, Fs, lookup, Sys, parent, is_dir, is_dir_node,
  publish,
}
use syscert.Os.Calls.{mkdir_all, make_dirs, fresh_meta, is_some, is_file_node, make_dir}
use syscert.Os.Laws.{path_eq_iff, lookup-insert, lookup-insert_self}
use syscert.Os.Progress.{call_still}

pub parent-snoc : (d : FilePath) (x : Str) → parent (d ++ (x ∷ [])) ≡ d
parent-snoc [] x = refl
parent-snoc (c ∷ []) x = refl
parent-snoc (c ∷ e ∷ d) x = ap (λ p. c ∷ p) (parent-snoc (e ∷ d) x)

abbrev pub HasDir : FilePath → Sys → Type 0
HasDir p s = (m : Meta) × (lookup p s.fs ≡ some (directory m))

pub HasDir-is_dir : (p : FilePath) (s : Sys) → HasDir p s → is_dir p s.fs ≡ true
HasDir-is_dir [] s d = refl
HasDir-is_dir (c ∷ p) s (m, there) = ap is_dir_node there

-- Something is at each step of the way.
abbrev pub AreThere : FilePath → FilePath → Fs → Type 0
AreThere done [] fs = Unit {0}
AreThere done (c ∷ rest) fs =
    (is_some (lookup (done ++ (c ∷ [])) fs) ≡ true) × AreThere (done ++ (c ∷ [])) rest fs

pub make_dirs-there :
    (done rest : FilePath) (m : Meta) (fs : Fs)
    → AreThere done rest fs
    → make_dirs done rest m fs ≡ fs
unfolding make_dirs
make_dirs-there done [] m fs h = refl
make_dirs-there done (c ∷ rest) m fs h =
    ap (make_dirs (done ++ (c ∷ [])) rest m) (one (lookup (done ++ (c ∷ [])) fs) h.0)
    ∙ make_dirs-there (done ++ (c ∷ [])) rest m fs h.1
  where
    one : (o : Option Node) → is_some o ≡ true → make_dir (done ++ (c ∷ [])) m fs o ≡ fs
    one none e = cc e
    one (some n) e = refl

-- Making a directory that is there changes nothing.
pub mkdir_all-there :
    (p : FilePath) (mode : ℕ) (s : Sys)
    → s.faults ≡ []
    → HasDir p s
    → AreThere [] p s.fs
    → mkdir_all p mode s ≡ (ok tt, publish s.fs s)
unfolding mkdir_all
mkdir_all-there p mode s free d above =
    call_still
      (λ x.
        if is_file_node (lookup p x.fs)
        then (err (sys enotdir), x)
        else (ok tt, publish (make_dirs [] p (fresh_meta mode x) x.fs) x))
      s free
    ∙ ap
        (λ o.
          if is_file_node o
          then (err (sys enotdir), s)
          else (ok tt, publish (make_dirs [] p (fresh_meta mode s) s.fs) s))
        d.1
    ∙ ap (λ fs. (ok tt, publish fs s)) (make_dirs-there [] p (fresh_meta mode s) s.fs above)

pub make_dirs-append :
    (done a b : FilePath) (m : Meta) (fs : Fs)
    → make_dirs done (a ++ b) m fs ≡ make_dirs (done ++ a) b m (make_dirs done a m fs)
unfolding make_dirs
make_dirs-append done [] b m fs = ap (λ d. make_dirs d b m fs) (sym (append-nil done))
make_dirs-append done (c ∷ a) b m fs =
    make_dirs-append (done ++ (c ∷ [])) a b m
      (make_dir (done ++ (c ∷ [])) m fs (lookup (done ++ (c ∷ [])) fs))
    ∙ ap
        (λ d. make_dirs d b m (
          make_dirs (done ++ (c ∷ [])) a m
            (make_dir (done ++ (c ∷ [])) m fs (lookup (done ++ (c ∷ [])) fs))))
        (append_assoc done (c ∷ []) a)

-- The directory is there, or is made if nothing is.
abbrev pub dir_at : FilePath → Meta → Fs → Fs
dir_at p m fs = make_dir p m fs (lookup p fs)

pub dir_at-same :
    (p q : FilePath) (m : Meta) (fs : Fs) → q ≢ p → lookup q (dir_at p m fs) ≡ lookup q fs
dir_at-same p q m fs ne = go (lookup p fs)
  where
    go : (o : Option Node) → lookup q (make_dir p m fs o) ≡ lookup q fs
    go none = rw lookup-insert (ground (arith, path_eq_iff p q))
    go (some n) = refl

pub dir_at-is_dir :
    (p : FilePath) (m : Meta) (fs : Fs)
    → is_file_node (lookup p fs) ≡ false
    → is_dir_node (lookup p (dir_at p m fs)) ≡ true
dir_at-is_dir p m fs = go (lookup p fs) refl
  where
    go :
        (o : Option Node)
        → lookup p fs ≡ o
        → is_file_node o ≡ false
        → is_dir_node (lookup p (make_dir p m fs o)) ≡ true
    go none e f = ap is_dir_node (lookup-insert_self p (directory m) fs)
    go (some (directory d)) e f = ap is_dir_node e
    go (some (file c d)) e f = cc f
