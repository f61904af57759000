-- ===== src/Atomicfile/Progress.antt =====
-- A write returns, where nothing keeps it from its directory, its temporary name or its target.
use syscert.Base.{
  ℕ, ◌≡◌, ◌≢◌, sym, ap, ◌∙◌, subst, Bool, true, false, Option, none, some, [], ◌∷◌, ◌++◌, arith,
}
use syscert.Go.Strings.{Str, lit}
use syscert.Go.Filepath.{FilePath}
use syscert.Os.{
  Result, ok, err, Meta, Node, file, directory, lookup, insert, erase, Host, Sys, Exec, advance,
  is_dir, is_dir_node, parent, next_fault, later_faults, call,
}
use syscert.Os.Calls.{
  deferring, create_temp, create_at, is_some, temp_name, chmod, update_node, close, rename,
  rename_node, remove, remove_node, write_open, write_done, write_node,
}
use syscert.Os.Laws.{path_eq_iff, lookup-insert, lookup-erase}
use syscert.Os.Triples.{Outcome, Triple, Triple-bind, Triple-deferring}
use syscert.Os.Progress.{Still, Never, Returns, Returns-call, Returns-with, call_unfaulted}
use syscert.Atomicfile.{
  Prepare, run_prepare, fill_and_rename, write, write_or_close, close_on_error,
}
use syscert.Atomicfile.States.{temp_path, Untouched, Staged, Replaced}
use syscert.Atomicfile.Steps.{write_Staged, close-Staged, update_call}
use syscert.Atomicfile.Renames.{rename-Replaced, remove-Replaced}
use syscert.Atomicfile.Atomic.{Fresh, temp_meta, create_Staged}

write_node-Still :
    (h : Host) (p : FilePath) (content : Str) (o : Option Node) (s : Sys)
    → Still h s
    → Still h (write_node p content o s)
write_node-Still h p content none s k = k
write_node-Still h p content (some (directory m)) s k = k
write_node-Still h p content (some (file old m)) s k = record { faults = k.faults; host = k.host }

module _ (p tmp : FilePath) (s0 : Sys) (h : Host) (content : Str) (m : Meta) where
  pub update-Returns :
      (f : Meta → Meta)
      → Returns h (Staged p tmp s0 content m) (call (λ s. update_node tmp f (lookup tmp s.fs) s))
  update-Returns f =
      Returns-call h _ (λ _. Still h) (λ s. update_node tmp f (lookup tmp s.fs) s)
        (λ s g k. rw (g.node, update_node) (record { faults = k.faults; host = k.host }))

  close-Returns : Returns h (Staged p tmp s0 content m) (close tmp)
  unfolding close
  close-Returns = Returns-call h _ (λ _. Still h) (λ s. (ok tt, s)) (λ s g k. k)

  -- The temporary name is free again.
  abbrev pub Renamed : Sys → Type 0
  Renamed s = (lookup tmp s.fs ≡ none) × Still h s

  gone : p ≢ tmp → (n : Node) (s : Sys) → lookup tmp (insert p n (erase tmp s.fs)) ≡ none
  gone apart n s =
      rw lookup-insert
        (ground (arith, path_eq_iff p tmp, path_eq_iff tmp tmp, lookup-erase tmp tmp s.fs))

  rename-Returns :
      p ≢ tmp
      → is_dir_node (lookup p s0.fs) ≡ false
      → Triple (λ s. Staged p tmp s0 content m s × Still h s) (rename tmp p) (λ _. Renamed) Never
  unfolding rename
  rename-Returns apart over =
      Returns-call h (Staged p tmp s0 content m) (λ _. Renamed)
        (λ s. rename_node tmp p (lookup tmp s.fs) (lookup p s.fs) s)
        (λ s g k. onto s g k (lookup p s.fs) (g.before.same p apart))
    where
      onto :
          (s : Sys)
          → Staged p tmp s0 content m s
          → Still h s
          → (old : Option Node) → old ≡ lookup p s0.fs
          → Outcome
              (λ _. Renamed)
              Never
              (rename_node tmp p (lookup tmp s.fs) old s).0
              (rename_node tmp p (lookup tmp s.fs) old s).1
      onto s g k none e =
          rw (g.node, rename_node) (gone apart _ s, record { faults = k.faults; host = k.host })
      onto s g k (some (file c d)) e =
          rw (g.node, rename_node) (gone apart _ s, record { faults = k.faults; host = k.host })
      onto s g k (some (directory d)) e = cc (ap is_dir_node e, over)

  remove-Renamed : Triple Renamed (remove tmp) (λ _. Renamed) Renamed
  unfolding remove
  remove-Renamed = record {
    at = λ s (free, k).
        rw (call_unfaulted (λ s. remove_node tmp (lookup tmp s.fs) s) s (ap next_fault k.faults)) (
          rw (free, remove_node)
            (free, record { faults = ap later_faults k.faults; host = k.host }));
  }

  write_open-Still :
      (s : Sys)
      → Still h s
      → Outcome (λ _. Still h) Never (write_open tmp content s).0 (write_open tmp content s).1
  unfolding write_open
  write_open-Still s k =
      rw (ap next_fault k.faults, write_done)
        (write_node-Still h tmp content _ (advance s)
          (record { faults = ap later_faults k.faults; host = k.host }))

  write-Returns : Returns h (Staged p tmp s0 [] m) (write_or_close tmp content)
  unfolding write_or_close
  write-Returns = record {
    at = λ s (g, k).
        go (write_open tmp content s).0 (write_open tmp content s).1 (write_open-Still s k);
  }
    where
      go :
          (r : Result (Unit {0})) (u : Sys)
          → Outcome (λ _. Still h) Never r u
          → Outcome (λ _. Still h) Never (close_on_error tmp r u).0 (close_on_error tmp r u).1
      go (ok a) u x = x
      go (err e) u x = absurd x

-- The target holds the content, and the temporary file is gone.
abbrev pub Finished : FilePath → FilePath → Sys → Host → Str → Meta → Sys → Type 0
Finished p tmp s0 h content m s = Replaced p tmp s0 content m s × Renamed p tmp s0 h content m s

module _ (p : FilePath) (s0 : Sys) (n : ℕ) (h : Host) (apart : p ≢ temp_path p n) where
  create-Returns :
      is_dir (parent p) s0.fs ≡ true
      → lookup (temp_path p n) s0.fs ≡ none
      → Returns h (Fresh p s0 n h) (create_temp (parent p) (lit ".syscert-") (lit ".tmp"))
  unfolding create_temp
  create-Returns there free =
      Returns-call h (Fresh p s0 n h) (λ _. Still h)
        (λ s.
          let t = parent p ++ (temp_name (lit ".syscert-") (lit ".tmp") s.nonce ∷ []) in
          create_at t (is_dir (parent p) s.fs) (is_some (lookup t s.fs)) s)
        (λ s e k.
          made s _ _ _ (ap (is_dir (parent p)) e.fs ∙ there)
            (ap is_some (ap (λ n. lookup (temp_path p n) s.fs) e.nonce ∙ ap (lookup _) e.fs ∙ free))
            k)
    where
      made :
          (s : Sys) (t : FilePath) (b c : Bool)
          → b ≡ true
          → c ≡ false
          → Still h s
          → Outcome (λ _. Still h) Never (create_at t b c s).0 (create_at t b c s).1
      made s t b c there free k = rw (there, free) (record { faults = k.faults; host = k.host })

  module _ (prepare : Prepare) (content : Str) (mode : ℕ) (m : Meta)
      (prepared : Triple
        (Staged p (temp_path p n) s0 content (record (temp_meta h) { mode = mode }))
        (run_prepare prepare (temp_path p n))
        (λ _. Staged p (temp_path p n) s0 content m)
        (Untouched p (temp_path p n) s0))
      (returns : Returns h
        (Staged p (temp_path p n) s0 content (record (temp_meta h) { mode = mode }))
        (run_prepare prepare (temp_path p n))) where
    fill-Finished :
        is_dir_node (lookup p s0.fs) ≡ false
        → Triple
            (λ s. Staged p (temp_path p n) s0 [] (temp_meta h) s × Still h s)
            (fill_and_rename (temp_path p n) p content mode prepare)
            (λ _. Finished p (temp_path p n) s0 h content m)
            Never
    unfolding fill_and_rename chmod
    fill-Finished over =
        let tmp = temp_path p n in
        let private = temp_meta h in
        Triple-bind _ _
          (Returns-with h _ _ (write_Staged p tmp s0 apart content private)
            (write-Returns p tmp s0 h content private))
          λ _.
            Triple-bind _ _
              (Returns-with h _ _ (close-Staged p tmp s0 apart content private)
                (close-Returns p tmp s0 h content private))
              λ _.
                Triple-bind _ _
                  (Returns-with h _ _
                    (update_call p tmp s0 apart (λ m. record m { mode = mode }) content private)
                    (update-Returns p tmp s0 h content private (λ m. record m { mode = mode })))
                  λ _. Triple-bind _ _ (Returns-with h _ _ prepared returns) λ _.
                    Returns-with h _ _ (rename-Replaced p tmp s0 apart content m)
                      (rename-Returns p tmp s0 h content m apart over)

    remove-Finished :
        Triple
          (Finished p (temp_path p n) s0 h content m)
          (remove (temp_path p n))
          (λ _. Finished p (temp_path p n) s0 h content m)
          (Finished p (temp_path p n) s0 h content m)
    remove-Finished = record {
      at = λ s (d, k).
          both _ _ ((remove-Replaced p _ s0 apart content m).at s d)
            ((remove-Renamed p (temp_path p n) s0 h content m).at s k);
    }
      where
        both :
            (r : Result (Unit {0})) (u : Sys)
            → Outcome
                (λ _. Replaced p (temp_path p n) s0 content m)
                (Replaced p (temp_path p n) s0 content m)
                r
                u
            → Outcome
                (λ _. Renamed p (temp_path p n) s0 h content m)
                (Renamed p (temp_path p n) s0 h content m)
                r
                u
            → Outcome
                (λ _. Finished p (temp_path p n) s0 h content m)
                (Finished p (temp_path p n) s0 h content m)
                r
                u
        both (ok a) u x y = (x, y)
        both (err e) u x y = (x, y)

    pub write-Finished :
        is_dir (parent p) s0.fs ≡ true
        → lookup (temp_path p n) s0.fs ≡ none
        → is_dir_node (lookup p s0.fs) ≡ false
        → Triple
            (λ s. Fresh p s0 n h s × Still h s)
            (write p content mode prepare)
            (λ _. Finished p (temp_path p n) s0 h content m)
            Never
    unfolding write
    write-Finished there free over =
        Triple-bind _ _
          (Returns-with h _ _ (create_Staged p s0 n h apart) (create-Returns there free))
          λ t. record {
            at = λ s ((e, g), k).
                subst
                  (λ t.
                    Outcome (λ _. Finished p (temp_path p n) s0 h content m) Never (body t s).0
                      (body t s).1)
                  (sym e)
                  ((Triple-deferring _ _ (λ _. remove-Finished) (record { at = λ s x. absurd x })
                      (fill-Finished over)).at
                    s (g, k));
          }
      where
        body : FilePath → Exec (Unit {0})
        body t = deferring (remove t) (fill_and_rename t p content mode prepare)
