-- ===== src/Store/Retained.antt =====
-- What the pruning of the archive, internal/store/store.go, leaves, whatever calls fail.
use syscert.Base.{
  ℕ, zero, suc, ◌-◌, ◌≡◌, ◌≢◌, refl, ap, true, Option, none, some, List, [], ◌∷◌, ◌++◌, All, length,
  take, drop, arith,
}
use syscert.Go.Strings.{Str, lit, contains}
use syscert.Go.Filepath.{FilePath, in_dir}
use syscert.Go.Sort.{sort, Distinct, sort-Distinct}
use syscert.Os.{
  Result, ok, err, Sys, lookup, call, pure, ◌>>=◌, continue, next_fault, advance, Fault, sys,
}
use syscert.Os.Calls.{child_dirs}
use syscert.Os.Frames.{Frames, frame_bind, frame_wrapping, frame_remove_all}
use syscert.Store.Disk.{subdirs, remove_snapshots, prune_archive}
use syscert.Store.Files.{beside_prefix}

contains-drop :
    (n : ℕ) (xs : List Str) (x : Str) → contains (drop n xs) x ≡ true → contains xs x ≡ true
unfolding contains
contains-drop zero xs x h = h
contains-drop (suc n) [] x h = h
contains-drop (suc n) (y ∷ ys) x h = ground (arith, contains-drop n ys x h)

-- A text among the last of different ones is not among the first.
take-apart :
    (n : ℕ) (xs : List Str) (x : Str)
    → Distinct xs
    → contains (drop n xs) x ≡ true
    → All (λ y. y ≢ x) (take n xs)
unfolding contains
take-apart zero xs x d h = tt
take-apart (suc n) [] x d h = tt
take-apart (suc n) (y ∷ ys) x d h =
    (λ e. cc (ap (contains ys) e, d.0, contains-drop n ys x h), take-apart n ys x d.1 h)

module _ (root : FilePath) (x : Str) (rest : FilePath) where
  abbrev kept_path : FilePath
  kept_path = root ++ (x ∷ rest)

  frame_remove_snapshots :
      (snaps : List Str) → All (λ y. y ≢ x) snaps → Frames kept_path (remove_snapshots root snaps)
  unfolding remove_snapshots pure
  frame_remove_snapshots [] ne = λ s. refl
  frame_remove_snapshots (y ∷ ys) ne =
      frame_bind kept_path _ _
        (frame_wrapping kept_path _ _ _
          (frame_remove_all kept_path (root ++ (y ∷ [])) (beside_prefix root y x rest ne.0)))
        (λ _. frame_remove_snapshots ys ne.1)

-- The last `keep` of the names in order.
abbrev pub latest : ℕ → List Str → List Str
latest keep names = let snaps = sort names in drop (length snaps - keep) snaps

-- If no snapshot is listed twice, then whatever calls fail, pruning the archive leaves every file of
-- the snapshots with the last `keep` names as it was.
pub prune_archive-latest :
    (dir : Str) (keep : ℕ) (x : Str) (rest : FilePath) (s : Sys)
    → Distinct (child_dirs (in_dir dir (lit "archive")) s.fs)
    → contains (latest keep (child_dirs (in_dir dir (lit "archive")) s.fs)) x ≡ true
    → lookup (in_dir dir (lit "archive") ++ (x ∷ rest)) (prune_archive dir keep s).1.fs
      ≡ lookup (in_dir dir (lit "archive") ++ (x ∷ rest)) s.fs
unfolding prune_archive subdirs call ◌>>=◌
prune_archive-latest dir keep x rest s d h = go (next_fault s.faults)
  where
    root : FilePath
    root = in_dir dir (lit "archive")

    none_gone : (n : ℕ) → All (λ y. y ≢ x) (take n [])
    none_gone zero = tt
    none_gone (suc n) = tt

    listed : Result (List Str) → Sys → Result (List Str) × Sys
    listed r t = elim r as (λ _. Result (List Str) × Sys) [
      | ok names ↦ (ok names, t)
      | err e ↦ (ok [], t)
    ]

    then : Result (List Str) × Sys → Result (Unit {0}) × Sys
    then r = continue r.0 (λ snaps. remove_snapshots root (take (length snaps - keep) snaps)) r.1

    go :
        (f : Option Fault)
        → (let r = elim f as (λ _. Result (List Str) × Sys) [
          | none ↦ (ok (sort (child_dirs root s.fs)), advance s)
          | some f ↦ (err (sys f.errno), advance s)
        ] in
            lookup (root ++ (x ∷ rest)) (then (listed r.0 r.1)).1.fs)
          ≡ lookup (root ++ (x ∷ rest)) s.fs
    go none =
        frame_remove_snapshots root x rest _
          (take-apart (length (sort (child_dirs root s.fs)) - keep) (sort (child_dirs root s.fs)) x
            (sort-Distinct _ d) h)
          (advance s)
    go (some f) = frame_remove_snapshots root x rest _ (none_gone (0 - keep)) (advance s)
