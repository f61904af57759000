-- ===== src/Os/Writes.antt =====
-- What a write that succeeds leaves behind.
use syscert.Base.{ℕ, ◌≡◌, refl, sym, ap, subst, ◌∙◌, Option, none, some, []}
use syscert.Go.Strings.{Str}
use syscert.Go.Filepath.{FilePath}
use syscert.Os.{
  Meta, Node, file, directory, Fs, lookup, Fault, Result, ok, err, Error, Sys, Exec, call,
  next_fault, advance, ◌>>=◌, continue,
}
use syscert.Os.Calls.{opened, fresh_meta, write_open, write_done, write_node, write_file}
use syscert.Os.Laws.{lookup-insert_self}

-- A call that succeeds did what it does.
call-ok :
    {A : Type 0} (act : Exec A) (a : A) (s : Sys)
    → (call act s).0 ≡ ok a
    → call act s ≡ act (advance s)
unfolding call
call-ok {A} act a s = go (next_fault s.faults)
  where
    go :
        (f : Option Fault)
        → (elim f as (λ _. Result A × Sys) [
          | none ↦ act (advance s)
          | some x ↦ (err (Error.sys x.errno), advance s)
        ]).0
          ≡ ok a
        → ◌≡◌ {A = Result A × Sys}
            (elim f as (λ _. Result A × Sys) [
              | none ↦ act (advance s)
              | some x ↦ (err (Error.sys x.errno), advance s)
            ])
            (act (advance s))
    go none h = refl
    go (some x) h = cc

-- The file is there, with some owner and mode.
abbrev pub HasContent : FilePath → Str → Fs → Type 0
HasContent p content fs = (m : Meta) × (lookup p fs ≡ some (file content m))

opened_lem :
    (p : FilePath) (mode : ℕ) (o : Option Node) (s : Sys)
    → (opened p mode o s).0 ≡ ok tt
    → HasContent p [] (opened p mode o s).1.fs
opened_lem p mode none s h = (fresh_meta mode s, lookup-insert_self p _ s.fs)
opened_lem p mode (some (file old m)) s h = (m, lookup-insert_self p _ s.fs)
opened_lem p mode (some (directory m)) s h = cc

write_open-ok :
    (p : FilePath) (old content : Str) (s : Sys)
    → HasContent p old s.fs
    → (write_open p content s).0 ≡ ok tt
    → HasContent p content (write_open p content s).1.fs
unfolding write_open
write_open-ok p old content s (m, there) h = go (next_fault s.faults) h
  where
    put :
        (o : Option Node)
        → o ≡ some (file old m)
        → HasContent p content (write_node p content o (advance s)).fs
    put none e = cc
    put (some (directory d)) e = cc
    put (some (file c d)) e = (d, lookup-insert_self p _ s.fs)

    go :
        (f : Option Fault)
        → (write_done p content f (advance s)).0 ≡ ok tt
        → HasContent p content (write_done p content f (advance s)).1.fs
    go none e = put (lookup p s.fs) there
    go (some f) e = cc

-- A file that os.WriteFile has written holds all of it.
pub write_file-ok :
    (p : FilePath) (content : Str) (mode : ℕ) (s : Sys)
    → (write_file p content mode s).0 ≡ ok tt
    → HasContent p content (write_file p content mode s).1.fs
unfolding write_file ◌>>=◌
write_file-ok p content mode s = go (call (λ t. opened p mode (lookup p t.fs) t) s) (λ e. opening e)
  where
    opening :
        (call (λ t. opened p mode (lookup p t.fs) t) s).0 ≡ ok tt
        → HasContent p [] (call (λ t. opened p mode (lookup p t.fs) t) s).1.fs
    opening e =
        let c = call-ok (λ t. opened p mode (lookup p t.fs) t) tt s e in
        subst (λ r. HasContent p [] r.1.fs) (sym c)
          (opened_lem p mode (lookup p s.fs) (advance s) (sym (ap (λ r. r.0) c) ∙ e))

    go :
        (r : Result (Unit {0}) × Sys)
        → (r.0 ≡ ok tt → HasContent p [] r.1.fs)
        → (continue r.0 (λ _. write_open p content) r.1).0 ≡ ok tt
        → HasContent p content (continue r.0 (λ _. write_open p content) r.1).1.fs
    go (ok tt, t) f h = write_open-ok p [] content t (f refl) h
    go (err e, t) f h = cc h
