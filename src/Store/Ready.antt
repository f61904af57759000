-- ===== src/Store/Ready.antt =====
-- What an archive run leaves alone: the store above it, and what is apart from it.
use syscert.Base.{
  ◌≡◌, refl, sym, ap, ◌∙◌, true, false, [], ◌∷◌, ◌++◌, List, All, append_assoc, arith,
}
use syscert.Go.Strings.{Str, lit, str_eq_refl}
use syscert.Go.Filepath.{FilePath, resolve, in_dir}
use syscert.Os.{Host, Sys, lookup, parent, is_dir, is_dir_node}
use syscert.Os.Calls.{is_prefix, is_some}
use syscert.Os.Progress.{IsKnown}
use syscert.Atomicfile.Returns.{CanPlace}
use syscert.Store.{Artifact, artifact_names}
use syscert.Store.Disk.{WriteOptions}
use syscert.Store.Dirs.{AreThere}
use syscert.Store.Placing.{Vacant}
use syscert.Store.Progress.{CanStore}
use syscert.Store.Copies.{Kept}
use syscert.Store.Pruned.{archive_root}
use syscert.Store.Archived.{CanArchive, apart}

shorter-is_prefix : (d r : FilePath) (a : Str) → is_prefix (d ++ (r ++ (a ∷ []))) d ≡ false
unfolding is_prefix
shorter-is_prefix [] [] a = ground arith
shorter-is_prefix [] (c ∷ r) a = ground arith
shorter-is_prefix (c ∷ d) r a = ground (arith, str_eq_refl c, shorter-is_prefix d r a)

is_prefix-parent : (a p : FilePath) → is_prefix a p ≡ false → is_prefix a (parent p) ≡ false
unfolding is_prefix
is_prefix-parent [] p h = cc h
is_prefix-parent (x ∷ a) [] h = h
is_prefix-parent (x ∷ a) (c ∷ []) h = ground arith
is_prefix-parent (x ∷ a) (c ∷ d ∷ p) h = ground (arith, is_prefix-parent a (d ∷ p))

module _ (h : Host) (root : FilePath) (s u : Sys) (k : Kept h root s u) where
  AreThere-Kept :
      (done rest : FilePath) (a : Str)
      → root ≡ done ++ (rest ++ (a ∷ []))
      → AreThere done rest s.fs
      → AreThere done rest u.fs
  AreThere-Kept done [] a e t = tt
  AreThere-Kept done (c ∷ rest) a e t =
      let longer = e ∙ sym (append_assoc done (c ∷ []) (rest ++ (a ∷ []))) in
      (
        ap is_some (
              k.same (done ++ (c ∷ [])) (
                ap (λ r. is_prefix r (done ++ (c ∷ []))) longer
                ∙ shorter-is_prefix (done ++ (c ∷ [])) rest a))
            ∙ t.0,
        AreThere-Kept (done ++ (c ∷ [])) rest a longer t.1,
      )

  is_dir-Kept :
      (p : FilePath) → is_prefix root p ≡ false → is_dir p s.fs ≡ true → is_dir p u.fs ≡ true
  is_dir-Kept [] out d = d
  is_dir-Kept (c ∷ p) out d = ap is_dir_node (k.same (c ∷ p) out) ∙ d

  pub CanPlace-Kept : (p : FilePath) → is_prefix root p ≡ false → CanPlace p s → CanPlace p u
  CanPlace-Kept p out c = record {
    plain = c.plain;
    there = is_dir-Kept (parent p) (is_prefix-parent root p out) c.there;
    over = ap is_dir_node (k.same p out) ∙ c.over;
  }

  Vacant-Kept :
      (dir : Str) (arts : List Artifact)
      → All (λ a. is_prefix root (in_dir dir a.name) ≡ false) arts
      → Vacant dir arts s
      → Vacant dir arts u
  Vacant-Kept dir [] out f = tt
  Vacant-Kept dir (a ∷ arts) out f =
      (ap is_dir_node (k.same (in_dir dir a.name) out.0) ∙ f.0, Vacant-Kept dir arts out.1 f.1)

-- Once an archive run is over, the artifacts can be written.
pub CanStore-Kept :
    (h : Host) (dir stamp : Str) (opts : WriteOptions) (arts : List Artifact) (s u : Sys)
    → ((P : Str → Type 0) → All P artifact_names → All (λ a. P a.name) arts)
    → CanArchive h dir stamp s
    → IsKnown h.group_of opts.group
    → Kept h (archive_root dir) s u
    → CanStore h dir arts opts u
CanStore-Kept h dir stamp opts arts s u names can group k = record {
  clear = k.clear;
  dir_there = (
    can.dir_there.0,
    k.same (resolve dir) (shorter-is_prefix (resolve dir) [] (lit "archive")) ∙ can.dir_there.1,
  );
  above = AreThere-Kept h (archive_root dir) s u k [] (resolve dir) (lit "archive") refl can.above;
  vacant =
      Vacant-Kept h (archive_root dir) s u k dir arts
        (names (λ x. is_prefix (archive_root dir) (in_dir dir x) ≡ false) (apart dir))
        (names (λ x. is_dir_node (lookup (in_dir dir x) s.fs) ≡ false) can.source);
  group = group;
}
