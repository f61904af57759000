-- ===== src/Atomicfile/Atomic.antt =====
-- Readers of the target see the old file or the whole new one, whatever fails.
use syscert.Base.{none, ℕ, ◌≡◌, ap, Bool, true, false, ◌++◌, ◌+◌, ◌∷◌, refl, ◌≢◌, []}
use syscert.Go.Strings.{lit, Str}
use syscert.Go.Filepath.{FilePath}
use syscert.Os.{advance, is_dir, Meta, lookup, Sys, Host, parent}
use syscert.Os.Calls.{deferring, chmod, remove, temp_name, create_at, is_some, create_temp}
use syscert.Os.Laws.{lookup-insert_self}
use syscert.Os.Triples.{
  Triple-pure, Outcome, Triple-fixed, Triple-bind, Triple-deferring, Triple, Triple-call,
}
use syscert.Atomicfile.{Prepare, run_prepare, fill_and_rename, write}
use syscert.Atomicfile.States.{temp_path, Since-none, Untouched, Staged, Replaced}
use syscert.Atomicfile.Steps.{insert_tmp, update_call, write_Staged, close-Staged}
use syscert.Atomicfile.Renames.{remove-Replaced, remove-Untouched, rename-Replaced}

-- The files and the history before the write are those of `s0`.
pub record Fresh (p : FilePath) (s0 : Sys) (n : ℕ) (h : Host) (s : Sys) : Type 0 where
  pub fs : s.fs ≡ s0.fs
  pub nonce : s.nonce ≡ n
  pub host : s.host ≡ h
  pub history : s.seen ≡ s0.seen

-- What os.CreateTemp gives the file.
abbrev pub temp_meta : Host → Meta
temp_meta h = record { mode = 0o600; uid = h.euid; gid = h.egid; label = [] }

module _ (p : FilePath) (s0 : Sys) (n : ℕ) (h : Host) (apart : p ≢ temp_path p n) where
  Fresh-Untouched : (s : Sys) → Fresh p s0 n h s → Untouched p (temp_path p n) s0 s
  Fresh-Untouched s e = record {
    same = λ q ne. ap (lookup q) e.fs;
    history = Since-none _ s0.seen s.seen e.history;
  }

  create_at-Staged :
      (s : Sys) (t : FilePath) (there taken : Bool)
      → Fresh p s0 n h s
      → t ≡ temp_path p n
      → Outcome
          (λ t s. (t ≡ temp_path p n) × Staged p (temp_path p n) s0 [] (temp_meta h) s)
          (Untouched p (temp_path p n) s0)
          (create_at t there taken s).0
          (create_at t there taken s).1
  create_at-Staged s t false taken e eq = Fresh-Untouched s e
  create_at-Staged s t true true e eq = Fresh-Untouched s e
  create_at-Staged s t true false e eq = rw eq (
    refl,
    record {
      before =
          insert_tmp p (temp_path p n) s0 apart _ (record s { nonce = s.nonce + 1 })
            (record {
              same = λ q ne. ap (lookup q) e.fs;
              history = Since-none _ s0.seen s.seen e.history;
            });
      node = rw (e.host) (lookup-insert_self (temp_path p n) _ s.fs);
    },
  )

  pub create_Staged :
      Triple
        (Fresh p s0 n h)
        (create_temp (parent p) (lit ".syscert-") (lit ".tmp"))
        (λ t s. (t ≡ temp_path p n) × Staged p (temp_path p n) s0 [] (temp_meta h) s)
        (Untouched p (temp_path p n) s0)
  unfolding create_temp
  create_Staged =
      Triple-call
        (λ s.
          let t = parent p ++ (temp_name (lit ".syscert-") (lit ".tmp") s.nonce ∷ []) in
          create_at t (is_dir (parent p) s.fs) (is_some (lookup t s.fs)) s)
        (λ s e.
          Fresh-Untouched (advance s)
            (record { fs = e.fs; nonce = e.nonce; host = e.host; history = e.history }))
        (λ s e.
          create_at-Staged (advance s) _ _ _
            (record { fs = e.fs; nonce = e.nonce; host = e.host; history = e.history })
            (ap (temp_path p) e.nonce))

  -- A prepare step that may change the owner of the temporary file, and nothing else.
  module _ (prepare : Prepare) (content : Str) (mode : ℕ) (m : Meta)
      (prepared : Triple
        (Staged p (temp_path p n) s0 content (record (temp_meta h) { mode = mode }))
        (run_prepare prepare (temp_path p n))
        (λ _. Staged p (temp_path p n) s0 content m)
        (Untouched p (temp_path p n) s0)) where
    fill_Replaced :
        Triple
          (Staged p (temp_path p n) s0 [] (temp_meta h))
          (fill_and_rename (temp_path p n) p content mode prepare)
          (λ _. Replaced p (temp_path p n) s0 content m)
          (Untouched p (temp_path p n) s0)
    unfolding fill_and_rename chmod
    fill_Replaced = Triple-bind _ _ (write_Staged p _ s0 apart content (temp_meta h)) λ _.
        Triple-bind _ _ (close-Staged p _ s0 apart content (temp_meta h)) λ _.
          Triple-bind _ _
            (update_call p _ s0 apart (λ m. record m { mode = mode }) content (temp_meta h))
            λ _. Triple-bind _ _ prepared λ _. rename-Replaced p _ s0 apart content m

    pub write-Replaced :
        Triple
          (Fresh p s0 n h)
          (write p content mode prepare)
          (λ _. Replaced p (temp_path p n) s0 content m)
          (Untouched p (temp_path p n) s0)
    unfolding write
    write-Replaced = Triple-bind _ _ create_Staged λ t.
        Triple-fixed (temp_path p n)
          (λ t. deferring (remove t) (fill_and_rename t p content mode prepare))
          (Triple-deferring _ _ (λ _. remove-Replaced p _ s0 apart content m)
            (remove-Untouched p _ s0 apart) fill_Replaced)
          t

-- If the target is not the name of the next temporary file: whatever calls fail, a write with no prepare step either returns with the whole new
-- file at the target, or fails with every file but its temporary one as it was; and in all states
-- that others could see meanwhile, the target held the old file or the whole new one with its final mode.
pub write_is_atomic :
    (s : Sys) (path : FilePath) (content : Str) (mode : ℕ)
    → path ≢ temp_path path s.nonce
    → Outcome
        (λ _.
          Replaced path
            (temp_path path s.nonce)
            s
            content
            (record (temp_meta s.host) { mode = mode }))
        (Untouched path (temp_path path s.nonce) s)
        (write path content mode none s).0
        (write path content mode none s).1
unfolding run_prepare
write_is_atomic s path content mode apart =
    (write-Replaced path s s.nonce s.host apart none content mode
        (record (temp_meta s.host) { mode = mode }) (Triple-pure tt (λ s g. g))).at
      s (record { fs = refl; nonce = refl; host = refl; history = refl })
