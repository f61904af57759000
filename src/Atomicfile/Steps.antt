-- ===== src/Atomicfile/Steps.antt =====
-- What the calls that fill the temporary file do to those states.
use syscert.Base.{◌≢◌, Option, none, some, [], arith, take}
use syscert.Go.Strings.{Str}
use syscert.Go.Filepath.{FilePath}
use syscert.Os.{
  Meta, Node, file, lookup, insert, erase, Result, ok, err, Sys, call, advance, publish, next_fault,
  Fault,
}
use syscert.Os.Calls.{write_open, write_done, write_node, close, update_node}
use syscert.Os.Laws.{lookup-insert_self, path_eq_iff, lookup-insert, lookup-erase}
use syscert.Os.Triples.{Outcome, Triple, whatever, Triple-call}
use syscert.Atomicfile.{close_on_error, write_or_close}
use syscert.Atomicfile.States.{Since-cons, Untouched, Staged}

module _ (p tmp : FilePath) (s0 : Sys) (apart : p ≢ tmp) where
  pub insert_tmp :
      (n : Node) (s : Sys)
      → Untouched p tmp s0 s
      → Untouched p tmp s0 (publish (insert tmp n s.fs) s)
  insert_tmp n s u = record {
    same = λ q ne. rw lookup-insert (ground (arith, path_eq_iff tmp q, u.same q ne));
    history =
        Since-cons _ s0.seen s.seen _
          (rw lookup-insert (ground (arith, path_eq_iff tmp p, u.same p apart))) u.history;
  }

  pub erase_tmp : (s : Sys) → Untouched p tmp s0 s → Untouched p tmp s0 (publish (erase tmp s.fs) s)
  erase_tmp s u = record {
    same = λ q ne. rw lookup-erase (ground (arith, path_eq_iff tmp q, u.same q ne));
    history =
        Since-cons _ s0.seen s.seen _
          (rw lookup-erase (ground (arith, path_eq_iff tmp p, u.same p apart))) u.history;
  }

  update_Staged :
      (f : Meta → Meta) (content : Str) (m : Meta) (s : Sys)
      → Staged p tmp s0 content m s
      → Outcome
          (λ _. Staged p tmp s0 content (f m))
          (Untouched p tmp s0)
          (update_node tmp f (lookup tmp s.fs) s).0
          (update_node tmp f (lookup tmp s.fs) s).1
  update_Staged f content m s g =
      rw (g.node, update_node)
        (record {
          before = insert_tmp (file content (f m)) s g.before;
          node = lookup-insert_self tmp _ s.fs;
        })

  pub advance-Staged :
      (content : Str) (m : Meta) (s : Sys)
      → Staged p tmp s0 content m s
      → Untouched p tmp s0 (advance s)
  advance-Staged content m s g = record { same = g.before.same; history = g.before.history }

  pub update_call :
      (f : Meta → Meta) (content : Str) (m : Meta)
      → Triple
          (Staged p tmp s0 content m)
          (call (λ s. update_node tmp f (lookup tmp s.fs) s))
          (λ _. Staged p tmp s0 content (f m))
          (Untouched p tmp s0)
  update_call f content m = Triple-call _ (advance-Staged content m) (λ s g.
      update_Staged f content m (advance s)
        (record { before = advance-Staged content m s g; node = g.node }))

  close-Untouched :
      Triple (Untouched p tmp s0) (close tmp) (λ _. Untouched p tmp s0) (Untouched p tmp s0)
  unfolding close
  close-Untouched =
      Triple-call (λ s. (ok tt, s)) (λ s u. record { same = u.same; history = u.history })
        (λ s u. record { same = u.same; history = u.history })

  pub close-Staged :
      (content : Str) (m : Meta)
      → Triple
          (Staged p tmp s0 content m)
          (close tmp)
          (λ _. Staged p tmp s0 content m)
          (Untouched p tmp s0)
  unfolding close
  close-Staged content m =
      Triple-call (λ s. (ok tt, s)) (advance-Staged content m)
        (λ s g. record { before = advance-Staged content m s g; node = g.node })

  put_Staged :
      (old new : Str) (m : Meta) (s : Sys)
      → Staged p tmp s0 old m s
      → Staged p tmp s0 new m (write_node tmp new (lookup tmp s.fs) s)
  put_Staged old new m s g =
      rw (g.node, write_node)
        (record {
          before = insert_tmp (file new m) s g.before;
          node = lookup-insert_self tmp _ s.fs;
        })

  write_done-Staged :
      (content : Str) (m : Meta) (f : Option Fault)
      → Triple
          (Staged p tmp s0 [] m)
          (write_done tmp content f)
          (λ _. Staged p tmp s0 content m)
          (Untouched p tmp s0)
  write_done-Staged content m none = record { at = λ s g. put_Staged [] content m s g }
  write_done-Staged content m (some f) = record {
    at = λ s g. (put_Staged [] (take f.written content) m s g).before;
  }

  closing :
      (content : Str) (m : Meta) (r : Result (Unit {0})) (s : Sys)
      → Outcome (λ _. Staged p tmp s0 content m) (Untouched p tmp s0) r s
      → Outcome
          (λ _. Staged p tmp s0 content m)
          (Untouched p tmp s0)
          (close_on_error tmp r s).0
          (close_on_error tmp r s).1
  closing content m (ok u) s h = h
  closing content m (err e) s h =
      whatever (Untouched p tmp s0) (close tmp s).0 (close tmp s).1 (close-Untouched.at s h)

  pub write_Staged :
      (content : Str) (m : Meta)
      → Triple
          (Staged p tmp s0 [] m)
          (write_or_close tmp content)
          (λ _. Staged p tmp s0 content m)
          (Untouched p tmp s0)
  unfolding write_or_close write_open
  write_Staged content m = record {
    at = λ s g. closing content m (write_open tmp content s).0 (write_open tmp content s).1 (
        (write_done-Staged content m (next_fault s.faults)).at (advance s)
          (record { before = advance-Staged [] m s g; node = g.node }));
  }
