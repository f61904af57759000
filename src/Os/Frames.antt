-- ===== src/Os/Frames.antt =====
-- Files that an action leaves alone, whatever calls fail.
use Prim.Native.String.{String}
use syscert.Base.{◌≡◌, ◌≢◌, refl, ap, ◌∙◌, false, Option, none, some, List, [], ◌∷◌, arith}
use syscert.Go.Strings.{Str}
use syscert.Go.Filepath.{FilePath}
use syscert.Os.{
  directory, file, publish, Fault, Fs, Node, Result, ok, err, Error, Sys, Exec, lookup, call,
  next_fault, advance, wrapping, ◌>>=◌, continue,
}
use syscert.Os.Calls.{
  stat, read_file, read_node, stat_node, remove, remove_node, remove_all, is_prefix, without_tree,
}
use syscert.Os.Laws.{path_eq_iff, lookup-erase}

pub lookup-without_tree :
    (p q : FilePath) (fs : Fs) → is_prefix p q ≡ false → lookup q (without_tree p fs) ≡ lookup q fs
unfolding lookup without_tree
lookup-without_tree p q [] h = refl
lookup-without_tree p q ((r, n) ∷ fs) h =
    ground (arith, path_eq_iff r q, lookup-without_tree p q fs h, ap (is_prefix p) {x = r} {y = q})

module _ (q : FilePath) where
  -- An action after which `q` is as before.
  abbrev pub Frames : {A : Type 0} → Exec A → Type 0
  Frames m = (s : Sys) → lookup q (m s).1.fs ≡ lookup q s.fs

  frame_call : {A : Type 0} (act : Exec A) → Frames act → Frames (call act)
  unfolding call
  frame_call {A} act f s = go (next_fault s.faults)
    where
      go :
          (o : Option Fault)
          → lookup q
              (elim o as (λ _. Result A × Sys) [
                | none ↦ act (advance s)
                | some x ↦ (err (Error.sys x.errno), advance s)
              ]).1.fs
            ≡ lookup q s.fs
      go none = f (advance s)
      go (some x) = refl

  pub frame_remove : (p : FilePath) → p ≢ q → Frames (remove p)
  unfolding remove
  frame_remove p ne = frame_call (λ s. remove_node p (lookup p s.fs) s) (λ s. go s (lookup p s.fs))
    where
      go : (s : Sys) (o : Option Node) → lookup q (remove_node p o s).1.fs ≡ lookup q s.fs
      go s none = refl
      go s (some n) = rw lookup-erase (ground (arith, path_eq_iff p q))

  pub frame_stat : (p : FilePath) → Frames (stat p)
  unfolding stat
  frame_stat p = frame_call (λ s. stat_node (lookup p s.fs) s) (λ s. go s (lookup p s.fs))
    where
      go : (s : Sys) (o : Option Node) → lookup q (stat_node o s).1.fs ≡ lookup q s.fs
      go s none = refl
      go s (some n) = refl

  pub frame_read_file : (p : FilePath) → Frames (read_file p)
  unfolding read_file
  frame_read_file p = frame_call (λ s. read_node (lookup p s.fs) s) (λ s. go s (lookup p s.fs))
    where
      go : (s : Sys) (o : Option Node) → lookup q (read_node o s).1.fs ≡ lookup q s.fs
      go s none = refl
      go s (some (directory m)) = refl
      go s (some (file c m)) = refl

  pub frame_remove_all : (p : FilePath) → is_prefix p q ≡ false → Frames (remove_all p)
  unfolding remove_all
  frame_remove_all p h =
      frame_call (λ s. (ok tt, publish (without_tree p s.fs) s))
        (λ s. lookup-without_tree p q s.fs h)

  pub frame_wrapping :
      {A : Type 0} (format : String) (values : List Str) (m : Exec A)
      → Frames m
      → Frames (wrapping format values m)
  unfolding wrapping
  frame_wrapping {A} format values m f s = go (m s).0 ∙ f s
    where
      go :
          (r : Result A)
          → lookup q
              (elim r as (λ _. Result A × Sys) [
                | ok a ↦ (ok a, (m s).1)
                | err e ↦ (err (Error.wrap format values e), (m s).1)
              ]).1.fs
            ≡ lookup q (m s).1.fs
      go (ok a) = refl
      go (err e) = refl

  pub frame_bind :
      {A B : Type 0} (m : Exec A) (f : A → Exec B)
      → Frames m
      → ((a : A) → Frames (f a))
      → Frames (m >>= f)
  unfolding ◌>>=◌
  frame_bind {A} {B} m f fm ff s = go (m s) (fm s)
    where
      go :
          (r : Result A × Sys)
          → lookup q r.1.fs ≡ lookup q s.fs
          → lookup q (continue r.0 f r.1).1.fs ≡ lookup q s.fs
      go (ok a, t) e = ff a t ∙ e
      go (err x, t) e = e
