-- ===== src/Atomicfile/Updates.antt =====
-- Changes of owner, mode or label of a file that a write has put in its place.
use syscert.Base.{◌≡◌, ap, ◌∙◌, arith}
use syscert.Go.Strings.{Str}
use syscert.Go.Filepath.{FilePath}
use syscert.Os.{Meta, file, lookup, insert, Host, Sys, ok, call, publish}
use syscert.Os.Calls.{update_node}
use syscert.Os.Laws.{path_eq_iff, lookup-insert, lookup-insert_self}
use syscert.Os.Progress.{call_still}
use syscert.Atomicfile.States.{temp_path}
use syscert.Atomicfile.Names.{IsPlainPath, plain-ne}
use syscert.Atomicfile.Returns.{IsClear, Placed}

module _ (h : Host) (p : FilePath) (content : Str) (m : Meta) (s u : Sys)
    (placed : Placed p content m s u) (clear : IsClear h u) (f : Meta → Meta) where
  abbrev pub updated : Sys
  updated = publish (insert p (file content (f m)) u.fs) u

  pub update-eq : call (λ x. update_node p f (lookup p x.fs) x) u ≡ (ok tt, updated)
  update-eq =
      call_still (λ x. update_node p f (lookup p x.fs) x) u clear.still.faults
      ∙ ap (λ o. update_node p f o u) placed.target

  pub updated-Placed : Placed p content (f m) s updated
  updated-Placed = record {
    same = λ q ne. rw lookup-insert (ground (arith, path_eq_iff p q, placed.same q ne));
    target = lookup-insert_self p _ u.fs;
  }

  pub updated-IsClear : IsPlainPath p → IsClear h updated
  updated-IsClear plain = record {
    still = record { faults = clear.still.faults; host = clear.still.host };
    free = λ x n.
        rw lookup-insert
          (ground (arith, path_eq_iff p (temp_path x n), plain-ne p x n plain, clear.free x n));
  }
