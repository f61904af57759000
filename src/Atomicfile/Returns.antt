-- ===== src/Atomicfile/Returns.antt =====
-- What a write that nothing hinders leaves, and that the next one is not hindered either.
use syscert.Base.{ℕ, ◌≡◌, ◌≢◌, refl, sym, ap, subst, ◌∙◌, Bool, true, false, none, some, [], ◌∷◌}
use syscert.Go.Strings.{Str}
use syscert.Go.Filepath.{FilePath}
use syscert.Os.{
  Result, ok, err, Meta, file, lookup, Host, Sys, is_dir, is_dir_node, parent, path_eq,
}
use syscert.Os.Laws.{path_eq_iff}
use syscert.Os.Triples.{Outcome, Triple, Triple-pure}
use syscert.Os.Progress.{Still, Never, Returns, Returns-pure}
use syscert.Atomicfile.{Prepare, run_prepare, write}
use syscert.Atomicfile.States.{temp_path, Staged, Untouched}
use syscert.Atomicfile.Names.{IsPlainPath, plain-ne}
use syscert.Atomicfile.Atomic.{temp_meta}
use syscert.Atomicfile.Progress.{Finished, write-Finished}

-- No call will fail by the environment's choice, and no file has the name of a temporary one.
pub record IsClear (h : Host) (s : Sys) : Type 0 where
  pub still : Still h s
  pub free : (x : FilePath) (n : ℕ) → lookup (temp_path x n) s.fs ≡ none

-- A file can be put at the path: its directory is there, and it is no directory itself.
pub record CanPlace (p : FilePath) (s : Sys) : Type 0 where
  pub plain : IsPlainPath p
  pub there : is_dir (parent p) s.fs ≡ true
  pub over : is_dir_node (lookup p s.fs) ≡ false

-- The path holds the content, and every other file is as it was.
pub record Placed (p : FilePath) (content : Str) (m : Meta) (s u : Sys) : Type 0 where
  pub same : (q : FilePath) → q ≢ p → lookup q u.fs ≡ lookup q s.fs
  pub target : lookup p u.fs ≡ some (file content m)

module _ (p : FilePath) (content : Str) (m : Meta) (s u : Sys) (d : Placed p content m s u) where
  Placed-IsClear : (h : Host) → IsPlainPath p → IsClear h s → Still h u → IsClear h u
  Placed-IsClear h plain c k = record {
    still = k;
    free = λ x n. d.same (temp_path x n) (λ e. plain-ne p x n plain (sym e)) ∙ c.free x n;
  }

  -- What was a directory, is one.
  Placed-is_dir :
      (q : FilePath)
      → is_dir_node (lookup p s.fs) ≡ false
      → is_dir q s.fs ≡ true
      → is_dir q u.fs ≡ true
  Placed-is_dir [] over h = refl
  Placed-is_dir (c ∷ q) over h =
      ap is_dir_node (d.same (c ∷ q) (λ e. cc (ap (λ x. is_dir_node (lookup x s.fs)) e, over, h)))
      ∙ h

  pub Placed-CanPlace :
      (q : FilePath) → is_dir_node (lookup p s.fs) ≡ false → q ≢ p → CanPlace q s → CanPlace q u
  Placed-CanPlace q over ne c = record {
    plain = c.plain;
    there = Placed-is_dir (parent q) over c.there;
    over = ap is_dir_node (d.same q ne) ∙ c.over;
  }

module _ (p : FilePath) (content : Str) (mode : ℕ) (m : Meta) (prepare : Prepare) (s : Sys)
    (h : Host)
    (prepared : Triple
      (Staged p (temp_path p s.nonce) s content (record (temp_meta h) { mode = mode }))
      (run_prepare prepare (temp_path p s.nonce))
      (λ _. Staged p (temp_path p s.nonce) s content m)
      (Untouched p (temp_path p s.nonce) s))
    (returns : Returns h
      (Staged p (temp_path p s.nonce) s content (record (temp_meta h) { mode = mode }))
      (run_prepare prepare (temp_path p s.nonce))) where
  -- With the temporary file gone, every file but the target is as it was.
  finished :
      (r : Result (Unit {0})) (u : Sys)
      → IsClear h s
      → Outcome (λ _. Finished p (temp_path p s.nonce) s h content m) Never r u
      → (r ≡ ok tt) × Placed p content m s u × Still h u
  finished (err e) u c k = absurd k
  finished (ok a) u c (d, (gone, still)) = (
    refl,
    record {
      same = λ q ne. elsewhere q ne (path_eq (temp_path p s.nonce) q) refl;
      target = d.target;
    },
    still,
  )
    where
      elsewhere :
          (q : FilePath)
          → q ≢ p
          → (b : Bool) → path_eq (temp_path p s.nonce) q ≡ b
          → lookup q u.fs ≡ lookup q s.fs
      elsewhere q ne true e =
          subst (λ x. lookup x u.fs ≡ lookup x s.fs) ((path_eq_iff (temp_path p s.nonce) q).0 e)
            (gone ∙ sym (c.free p s.nonce))
      elsewhere q ne false e =
          d.same q (λ same. cc (e, (path_eq_iff (temp_path p s.nonce) q).1 (sym same))) ne

  pub write-Placed :
      IsClear h s
      → CanPlace p s
      → (u : Sys) × (write p content mode prepare s ≡ (ok tt, u))
        × Placed p content m s u
        × IsClear h u
  write-Placed c can =
      let r = write p content mode prepare s in
      let (done, placed, still) = finished r.0 r.1 c (
        (write-Finished p s s.nonce h (plain-ne p p s.nonce can.plain) prepare content mode m
            prepared returns can.there (c.free p s.nonce) can.over).at
          s (record { fs = refl; nonce = refl; host = c.still.host; history = refl }, c.still)) in
      (
        r.1,
        ap (λ x. (x, r.1)) done,
        placed,
        Placed-IsClear p content m s r.1 placed h can.plain c still,
      )

module _ (s : Sys) (p : FilePath) (content : Str) (mode : ℕ) where
  pub write_unprepared :
      (h : Host)
      → IsClear h s
      → CanPlace p s
      → (u : Sys) × (write p content mode none s ≡ (ok tt, u))
        × Placed p content (record (temp_meta h) { mode = mode }) s u
        × IsClear h u
  unfolding run_prepare
  write_unprepared h =
      write-Placed p content mode (record (temp_meta h) { mode = mode }) none s h
        (Triple-pure tt (λ s g. g))
        (Returns-pure h
          (Staged p (temp_path p s.nonce) s content (record (temp_meta h) { mode = mode })) tt)
