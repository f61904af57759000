-- ===== src/Atomicfile/Holds.antt =====
-- A write that returns gives the target its content and mode, and keeps those of other files.
use syscert.Base.{◌≡◌, ℕ, ◌≢◌, refl, ◌∙◌, none}
use syscert.Go.Strings.{Str}
use syscert.Go.Filepath.{FilePath}
use syscert.Os.{lookup, Result, ok, err, Sys}
use syscert.Os.Triples.{Outcome}
use syscert.Os.Holds.{Holds, Anything, Ensures}
use syscert.Atomicfile.{write}
use syscert.Atomicfile.Names.{IsPlainPath, plain-ne}
use syscert.Atomicfile.States.{temp_path, Untouched, Replaced}
use syscert.Atomicfile.Atomic.{temp_meta, write_is_atomic}

pub on_return :
    {A : Type 0} (Q : A → Sys → Type 0) (E Q' : Sys → Type 0) (r : Result A) (s : Sys)
    → ((a : A) → Q a s → Q' s)
    → Outcome Q E r s
    → Outcome (λ _. Q') Anything r s
on_return Q E Q' (ok a) s f h = f a h
on_return Q E Q' (err e) s f h = tt

module _ (p : FilePath) (content : Str) (mode : ℕ) (apart : (n : ℕ) → p ≢ temp_path p n) where
  pub write-Holds : Ensures Anything (write p content mode none) (Holds p content mode)
  write-Holds = record {
    at = λ s h.
        on_return _ _ (Holds p content mode) _ _ (λ a d. (_, d.target, refl))
          (write_is_atomic s p content mode (apart s.nonce));
  }

  pub write-keeps :
      (q : FilePath) (kept : Str) (m : ℕ)
      → q ≢ p
      → ((n : ℕ) → q ≢ temp_path p n)
      → Ensures (Holds q kept m) (write p content mode none) (Holds q kept m)
  write-keeps q kept m ne temp = record {
    at = λ s (k, there, right).
        on_return _ _ (Holds q kept m) _ _ (λ a d. (k, d.same q (temp s.nonce) ne ∙ there, right))
          (write_is_atomic s p content mode (apart s.nonce));
  }

-- A write, whether it returns or fails, leaves every other file as it was.
pub write-frame :
    (p q : FilePath) (content : Str) (mode : ℕ) (s : Sys)
    → IsPlainPath p
    → IsPlainPath q
    → q ≢ p
    → lookup q (write p content mode none s).1.fs ≡ lookup q s.fs
write-frame p q content mode s plain other ne =
    go (write p content mode none s).0 (write p content mode none s).1
      (write_is_atomic s p content mode (plain-ne p p s.nonce plain))
  where
    go :
        (r : Result (Unit {0})) (t : Sys)
        → Outcome
            (λ _.
              Replaced p
                (temp_path p s.nonce)
                s
                content
                (record (temp_meta s.host) { mode = mode }))
            (Untouched p (temp_path p s.nonce) s)
            r
            t
        → lookup q t.fs ≡ lookup q s.fs
    go (ok u) t d = d.same q (plain-ne q p s.nonce other) ne
    go (err e) t d = d.same q (plain-ne q p s.nonce other)
