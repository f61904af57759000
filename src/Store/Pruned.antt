-- ===== src/Store/Pruned.antt =====
-- The removal of old snapshots, internal/store/store.go.
use syscert.Base.{ℕ, ◌≡◌, refl, ap, ◌∙◌, false, none, List, [], ◌∷◌, ◌++◌, arith, ◌-◌, length, take}
use syscert.Go.Strings.{Str, lit}
use syscert.Go.Filepath.{FilePath, in_dir}
use syscert.Os.{Result, ok, err, Fs, lookup, Host, Sys, publish, pure}
use syscert.Os.Calls.{is_prefix, remove_all, without_tree, child_dirs}
use syscert.Os.Laws.{path_eq_iff}
use syscert.Os.Progress.{call_still, bound, wrapped}
use syscert.Atomicfile.States.{temp_path}
use syscert.Atomicfile.Returns.{IsClear}
use syscert.Store.Disk.{subdirs, remove_snapshots, prune_archive}
use syscert.Go.Sort.{sort}
use syscert.Os.Frames.{lookup-without_tree}
use syscert.Store.Copies.{Kept, Kept-trans}

lookup-without_tree-none :
    (p q : FilePath) (fs : Fs) → lookup q fs ≡ none → lookup q (without_tree p fs) ≡ none
unfolding lookup without_tree
lookup-without_tree-none p q [] h = refl
lookup-without_tree-none p q ((r, n) ∷ fs) h =
    ground (arith, path_eq_iff r q, lookup-without_tree-none p q fs)

is_prefix-longer : (a b q : FilePath) → is_prefix a q ≡ false → is_prefix (a ++ b) q ≡ false
unfolding is_prefix
is_prefix-longer [] b q h = cc h
is_prefix-longer (c ∷ a) b [] h = refl
is_prefix-longer (c ∷ a) b (d ∷ q) h = ground (arith, is_prefix-longer a b q)

-- Snapshots below the root.
module _ (h : Host) (root : FilePath) where
  removed-Kept :
      (x : Str) (s : Sys)
      → IsClear h s
      → Kept h root s (publish (without_tree (root ++ (x ∷ [])) s.fs) s)
  removed-Kept x s clear = record {
    clear = record {
      still = record { faults = clear.still.faults; host = clear.still.host };
      free =
          λ y n. lookup-without_tree-none (root ++ (x ∷ [])) (temp_path y n) s.fs (clear.free y n);
    };
    same = λ q out.
        lookup-without_tree (root ++ (x ∷ [])) q s.fs (is_prefix-longer root (x ∷ []) q out);
  }

  remove_snapshots-returns :
      (snaps : List Str) (s : Sys)
      → IsClear h s
      → (u : Sys) × (remove_snapshots root snaps s ≡ (ok tt, u)) × Kept h root s u
  unfolding remove_snapshots remove_all pure
  remove_snapshots-returns [] s clear = (s, refl, record { clear = clear; same = λ q out. refl })
  remove_snapshots-returns (x ∷ xs) s clear =
      let p = root ++ (x ∷ []) in
      let u = publish (without_tree p s.fs) s in
      let k = removed-Kept x s clear in
      let (v, rest, l) = remove_snapshots-returns xs u k.clear in
      (
        v,
        bound _ _ tt s u (
              wrapped "prune archive %s: %w" (x ∷ []) _ tt s u
                (call_still (λ s. (ok tt, publish (without_tree p s.fs) s)) s clear.still.faults))
            ∙ rest,
        Kept-trans h root s u v k l,
      )

abbrev pub archive_root : Str → FilePath
archive_root dir = in_dir dir (lit "archive")

module _ (h : Host) (dir : Str) where
  pub prune_archive-returns :
      (keep : ℕ) (s : Sys)
      → IsClear h s
      → (u : Sys) × (prune_archive dir keep s ≡ (ok tt, u)) × Kept h (archive_root dir) s u
  unfolding prune_archive subdirs
  prune_archive-returns keep s clear =
      let snaps = sort (child_dirs (archive_root dir) s.fs) in
      let (u, e, k) =
        remove_snapshots-returns h (archive_root dir) (take (length snaps - keep) snaps) s clear in
      (
        u,
        bound (subdirs (archive_root dir)) _ snaps s s (
              ap
                (λ r. elim r.0 as (λ _. Result (List Str) × Sys) [
                  | ok names ↦ (ok names, r.1)
                  | err x ↦ (ok [], r.1)
                ])
                (call_still (λ t. (ok (sort (child_dirs (archive_root dir) t.fs)), t)) s
                  clear.still.faults))
            ∙ e,
        k,
      )
