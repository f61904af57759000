-- ===== src/Acme/Key.antt =====
-- The account's key on the disk, internal/acme/account.go.
use syscert.Base.{◌≡◌, refl, ap, subst, ◌∙◌, Bool, true, false, Option, none, some, [], ◌∷◌, ◌++◌}
use syscert.Go.Strings.{Str, lit}
use syscert.Go.Filepath.{FilePath}
use syscert.Os.{Result, ok, err, Error, Sys, Exec, next_fault, raise, pure, advance}
use syscert.Os.Calls.{mkdir_all, read_file, write_file}
use syscert.Os.Progress.{read_unfaulted, bound, wrapped}
use syscert.Os.Dirs.{mkdir_all-Finds}
use syscert.Os.Triples.{Outcome, Triple, Triple-pure, Triple-raise, Triple-bind, Triple-wrapping}
use syscert.Os.Holds.{Anything, Ensures, Ensures-nothing, Ensures-at, ok_inj}
use syscert.Os.Writes.{HasContent, write_file-ok}
use syscert.Acme.{Library, account_key, account_dir, create_key, read_key, key_of_read}

module _ (l : Library) (path : FilePath) where
  -- A key that is new is in the file.
  abbrev IsKept : l.Key × Bool → Sys → Type 0
  IsKept (key, false) s = HasContent path (l.encode_key key) s.fs
  IsKept (key, true) s = Unit {0}

  written :
      (key : l.Key)
      → Ensures Anything (write_file path (l.encode_key key) 0o600) (IsKept (key, false))
  written key = record {
    at = λ s h.
        go (write_file path (l.encode_key key) 0o600 s)
          (write_file-ok path (l.encode_key key) 0o600 s);
  }
    where
      go :
          (r : Result (Unit {0}) × Sys)
          → (r.0 ≡ ok tt → HasContent path (l.encode_key key) r.1.fs)
          → Outcome (λ _. IsKept (key, false)) Anything r.0 r.1
      go (ok u, t) f = f refl
      go (err e, t) f = tt

  key_of_read-IsKept : (r : Result Str) → Triple Anything (key_of_read l path r) IsKept Anything
  unfolding key_of_read create_key
  key_of_read-IsKept (err e) = Triple-bind _ _ (Ensures-nothing l.fresh_key) λ key.
      Triple-bind _ _ (Triple-wrapping _ _ _ (written key)) λ _. Triple-pure (key, false) (λ s h. h)
  key_of_read-IsKept (ok content) = go (l.decode_key content)
    where
      go :
          (o : Option l.Key)
          → Triple Anything
              (elim o as (λ _. Exec (l.Key × Bool)) [
                | none ↦ raise (Error.text "account key %s is not PEM" [])
                | some key ↦ pure (key, true)
              ])
              IsKept
              Anything
      go none = Triple-raise _ (λ s h. tt)
      go (some key) = Triple-pure (key, true) (λ s h. tt)

  read_key-IsKept : Triple Anything (read_key l path) IsKept Anything
  unfolding read_key
  read_key-IsKept = record {
    at = λ s h. (key_of_read-IsKept (read_file path s).0).at (read_file path s).1 tt;
  }

abbrev key_file : (l : Library) → FilePath → Str → FilePath
key_file l base url = account_dir l base url ++ (lit "account.key" ∷ [])

account_key-IsKept :
    (l : Library) (base : FilePath) (url : Str)
    → Triple Anything (account_key l base url) (IsKept l (key_file l base url)) Anything
unfolding account_key
account_key-IsKept l base url =
    Triple-bind _ _ (Ensures-nothing _) λ _. read_key-IsKept l (key_file l base url)

loads :
    (l : Library) (path : FilePath) (key : l.Key) (s : Sys)
    → l.decode_key (l.encode_key key) ≡ some key
    → read_file path s ≡ (ok (l.encode_key key), advance s)
    → read_key l path s ≡ (ok (key, true), advance s)
unfolding read_key key_of_read pure
loads l path key s inverse read =
    ap (λ r. key_of_read l path r.0 r.1) read
    ∙ ap
        (λ o.
          (elim o as (λ _. Exec (l.Key × Bool)) [
            | none ↦ raise (Error.text "account key %s is not PEM" [])
            | some k ↦ pure (k, true)
          ])
            (advance s))
        inverse

created :
    (l : Library) (path : FilePath) (key : l.Key) (r : Result (l.Key × Bool) × Sys) (t : Sys)
    → Outcome (IsKept l path) Anything r.0 r.1
    → r ≡ (ok (key, false), t)
    → HasContent path (l.encode_key key) t.fs
created l path key (ok x, u) t kept e =
    subst (λ s. IsKept l path (key, false) s) (ap (λ r. r.1) e)
      (subst (λ y. IsKept l path y u) (ok_inj (ap (λ r. r.0) e)) kept)
created l path key (err x, u) t kept e = cc (ap (λ r. r.0) e)

-- If encoding and decoding a key gives it back, and one call of accountKey made a new key, then the
-- next call for the same CA, once it has its directory and its read is let through, loads that key
-- and says that the account existed.
pub account_key-again :
    (l : Library) (base : FilePath) (url : Str) (key : l.Key) (s t u : Sys)
    → ((k : l.Key) → l.decode_key (l.encode_key k) ≡ some k)
    → account_key l base url s ≡ (ok (key, false), t)
    → mkdir_all (account_dir l base url) 0o700 t ≡ (ok tt, u)
    → next_fault u.faults ≡ none
    → (account_key l base url t).0 ≡ ok (key, true)
unfolding account_key
account_key-again l base url key s t u inverse made dir free =
    ap (λ r. r.0)
      (bound _ _ tt t u (
          wrapped "create account dir: %w" [] (mkdir_all (account_dir l base url) 0o700) tt t u dir)
        ∙ loads l (key_file l base url) key u (inverse key)
            (read_unfaulted (key_file l base url) (l.encode_key key) u kept free))
  where
    stored : HasContent (key_file l base url) (l.encode_key key) t.fs
    stored =
        created l (key_file l base url) key (account_key l base url s) t
          ((account_key-IsKept l base url).at s tt) made

    kept : HasContent (key_file l base url) (l.encode_key key) u.fs
    kept = (
      stored.0,
      Ensures-at (mkdir_all (account_dir l base url) 0o700) tt t u
          (mkdir_all-Finds (account_dir l base url) (key_file l base url) 0o700 _) stored.1 dir,
    )
