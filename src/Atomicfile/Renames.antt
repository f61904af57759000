-- ===== src/Atomicfile/Renames.antt =====
-- What the rename of the temporary file, and the deferred removal of it, do to those states.
use syscert.Base.{◌≢◌, inl, inr, Option, none, some, arith}
use syscert.Go.Strings.{Str}
use syscert.Go.Filepath.{FilePath}
use syscert.Os.{Meta, Node, file, directory, lookup, insert, erase, Sys, advance, publish}
use syscert.Os.Calls.{rename, remove, rename_node, remove_node}
use syscert.Os.Laws.{lookup-insert_self, path_eq_iff, lookup-insert, lookup-erase}
use syscert.Os.Triples.{Outcome, Triple, Triple-call}
use syscert.Atomicfile.States.{Since-cons, Since-map, Untouched, Staged, Replaced}
use syscert.Atomicfile.Steps.{advance-Staged, erase_tmp}

module _ (p tmp : FilePath) (s0 : Sys) (apart : p ≢ tmp) where
  onto_Replaced :
      (content : Str) (m : Meta) (s : Sys)
      → Staged p tmp s0 content m s
      → Replaced p tmp s0 content m (publish (insert p (file content m) (erase tmp s.fs)) s)
  onto_Replaced content m s g = record {
    same = λ q nt np. rw lookup-insert (
        ground
          (arith, path_eq_iff p q, path_eq_iff tmp q, lookup-erase tmp q s.fs, g.before.same q nt));
    target = lookup-insert_self p _ (erase tmp s.fs);
    history =
        Since-cons _ s0.seen s.seen _ (inr (lookup-insert_self p _ (erase tmp s.fs)))
          (Since-map _ _ s0.seen s.seen (λ fs e. inl e) g.before.history);
  }

  pub rename-Replaced :
      (content : Str) (m : Meta)
      → Triple
          (Staged p tmp s0 content m)
          (rename tmp p)
          (λ _. Replaced p tmp s0 content m)
          (Untouched p tmp s0)
  unfolding rename
  rename-Replaced content m =
      Triple-call (λ s. rename_node tmp p (lookup tmp s.fs) (lookup p s.fs) s)
        (advance-Staged p tmp s0 apart content m) (λ s g. onto s g (lookup p s.fs))
    where
      onto :
          (s : Sys)
          → Staged p tmp s0 content m s
          → (old : Option Node)
          → Outcome
              (λ _. Replaced p tmp s0 content m)
              (Untouched p tmp s0)
              (rename_node tmp p (lookup tmp s.fs) old (advance s)).0
              (rename_node tmp p (lookup tmp s.fs) old (advance s)).1
      onto s g (some (directory d)) =
          rw (g.node, rename_node) (advance-Staged p tmp s0 apart content m s g)
      onto s g none =
          rw (g.node, rename_node)
            (onto_Replaced content m (advance s)
              (record { before = advance-Staged p tmp s0 apart content m s g; node = g.node }))
      onto s g (some (file c d)) =
          rw (g.node, rename_node)
            (onto_Replaced content m (advance s)
              (record { before = advance-Staged p tmp s0 apart content m s g; node = g.node }))

  pub remove-Untouched :
      Triple (Untouched p tmp s0) (remove tmp) (λ _. Untouched p tmp s0) (Untouched p tmp s0)
  unfolding remove
  remove-Untouched =
      Triple-call (λ s. remove_node tmp (lookup tmp s.fs) s)
        (λ s u. record { same = u.same; history = u.history })
        (λ s u. go (advance s) (record { same = u.same; history = u.history }) (lookup tmp s.fs))
    where
      go :
          (s : Sys)
          → Untouched p tmp s0 s
          → (o : Option Node)
          → Outcome
              (λ _. Untouched p tmp s0)
              (Untouched p tmp s0)
              (remove_node tmp o s).0
              (remove_node tmp o s).1
      go s u none = u
      go s u (some n) = erase_tmp p tmp s0 apart s u

  pub remove-Replaced :
      (content : Str) (m : Meta)
      → Triple
          (Replaced p tmp s0 content m)
          (remove tmp)
          (λ _. Replaced p tmp s0 content m)
          (Replaced p tmp s0 content m)
  unfolding remove
  remove-Replaced content m =
      Triple-call (λ s. remove_node tmp (lookup tmp s.fs) s)
        (λ s u. record { same = u.same; target = u.target; history = u.history })
        (λ s u.
          go (advance s) (record { same = u.same; target = u.target; history = u.history })
            (lookup tmp s.fs))
    where
      go :
          (s : Sys)
          → Replaced p tmp s0 content m s
          → (o : Option Node)
          → Outcome
              (λ _. Replaced p tmp s0 content m)
              (Replaced p tmp s0 content m)
              (remove_node tmp o s).0
              (remove_node tmp o s).1
      go s u none = u
      go s u (some n) = record {
        same = λ q nt np. rw lookup-erase (ground (arith, path_eq_iff tmp q, u.same q nt np));
        target = rw lookup-erase (ground (arith, path_eq_iff tmp p, u.target));
        history =
            Since-cons _ s0.seen s.seen _
              (inr (rw lookup-erase (ground (arith, path_eq_iff tmp p, u.target)))) u.history;
      }
