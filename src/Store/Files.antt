-- ===== src/Store/Files.antt =====
-- What removing state leaves alone, internal/store/store.go: with the account kept, everything under
-- its directory.
use syscert.Base.{
  ℕ, ◌≡◌, ◌≢◌, refl, ◌∙◌, inl, inr, false, List, [], ◌∷◌, ◌++◌, All, arith, Bool-cases,
}
use syscert.Go.Strings.{Str, lit, str_eq, str_eq_iff, str_eq_refl, str_ne}
use syscert.Go.Filepath.{FilePath, resolve, in_dir}
use syscert.Os.{Node, Result, ok, err, Sys, lookup}
use syscert.Os.Calls.{stat, remove, remove_all, is_prefix}
use syscert.Os.Frames.{frame_remove, frame_stat, frame_remove_all, frame_wrapping}
use syscert.Distribute.{is_errno}
use syscert.Store.{artifact_names}
use syscert.Store.Disk.{
  counted, removed_one, count_one, remove_found, is_not_exist, remove_artifacts, remove_if_present,
  then_remove, wipe_certs,
}

module _ (q : FilePath) where
  frame_removed_one :
      (removed : ℕ) (name : Str) (r : Result (Unit {0})) (s : Sys)
      (next : ℕ × Result (Unit {0}) × Sys)
      → lookup q next.2.fs ≡ lookup q s.fs
      → lookup q (removed_one removed name r s next).2.fs ≡ lookup q s.fs
  frame_removed_one removed name (ok u) s next h = h
  frame_removed_one removed name (err e) s next h = elim (Bool-cases (is_errno is_not_exist e)) [
    | inl y ↦ rw y h
    | inr n ↦ rw n
  ]

  frame_remove_artifacts :
      (dir : Str) (removed : ℕ) (names : List Str) (s : Sys)
      → All (λ name. in_dir dir name ≢ q) names
      → lookup q (remove_artifacts dir removed names s).2.fs ≡ lookup q s.fs
  unfolding remove_artifacts
  frame_remove_artifacts dir removed [] s h = refl
  frame_remove_artifacts dir removed (name ∷ names) s h =
      frame_removed_one removed name (remove (in_dir dir name) s).0 (remove (in_dir dir name) s).1 _
        (frame_remove_artifacts dir (counted removed (remove (in_dir dir name) s).0) names
          (remove (in_dir dir name) s).1 h.1)
      ∙ frame_remove q (in_dir dir name) h.0 s

  frame_count_one :
      (r : Result (Unit {0})) (s : Sys) → lookup q (count_one (r, s)).2.fs ≡ lookup q s.fs
  frame_count_one (ok u) s = refl
  frame_count_one (err e) s = refl

  frame_remove_found :
      (dir sub : Str) (r : Result Node) (s : Sys)
      → is_prefix (in_dir dir sub) q ≡ false
      → lookup q (remove_found dir sub r s).2.fs ≡ lookup q s.fs
  frame_remove_found dir sub (err e) s h = refl
  frame_remove_found dir sub (ok fi) s h =
      frame_count_one _ _
      ∙ frame_wrapping q "remove %s: %w" (sub ∷ []) (remove_all (in_dir dir sub))
          (frame_remove_all q (in_dir dir sub) h) s

  frame_then_remove :
      (dir sub : Str) (n : ℕ) (r : Result (Unit {0})) (s : Sys)
      → is_prefix (in_dir dir sub) q ≡ false
      → lookup q (then_remove dir sub (n, r, s)).2.fs ≡ lookup q s.fs
  unfolding remove_if_present
  frame_then_remove dir sub n (err e) s h = refl
  frame_then_remove dir sub n (ok u) s h =
      frame_remove_found dir sub (stat (in_dir dir sub) s).0 (stat (in_dir dir sub) s).1 h
      ∙ frame_stat q (in_dir dir sub) s

  frame_wipe_certs :
      (dir : Str) (s : Sys)
      → All (λ name. in_dir dir name ≢ q) artifact_names
      → is_prefix (in_dir dir (lit "archive")) q ≡ false
      → lookup q (wipe_certs dir s).2.fs ≡ lookup q s.fs
  unfolding wipe_certs
  frame_wipe_certs dir s h k =
      frame_then_remove dir (lit "archive") _ _ _ k
      ∙ frame_remove_artifacts dir 0 artifact_names s h

pub beside-ne :
    (d : FilePath) (a b : Str) (rest : FilePath) → a ≢ b → d ++ (a ∷ []) ≢ d ++ (b ∷ rest)
beside-ne [] a b rest ne e = ne (cc)
beside-ne (x ∷ d) a b rest ne e = beside-ne d a b rest ne (cc)

pub beside_prefix :
    (d : FilePath) (a b : Str) (rest : FilePath)
    → a ≢ b
    → is_prefix (d ++ (a ∷ [])) (d ++ (b ∷ rest)) ≡ false
unfolding is_prefix
beside_prefix [] a b rest ne = ground (arith, str_eq_iff a b)
beside_prefix (x ∷ d) a b rest ne = ground (arith, str_eq_refl x, beside_prefix d a b rest ne)

-- Removing the certificate with the account kept leaves the directory of the accounts, and every file
-- in it, as it was, whatever calls fail.
pub wipe_certs-accounts :
    (dir : Str) (rest : FilePath) (s : Sys)
    → lookup (resolve dir ++ (lit "accounts" ∷ rest)) (wipe_certs dir s).2.fs
      ≡ lookup (resolve dir ++ (lit "accounts" ∷ rest)) s.fs
unfolding lit str_eq
wipe_certs-accounts dir rest s =
    frame_wipe_certs (resolve dir ++ (lit "accounts" ∷ rest)) dir s
      (
        apart (lit "cert.pem") refl,
        (
          apart (lit "privkey.pem") refl,
          (
            apart (lit "chain.pem") refl,
            (apart (lit "fullchain.pem") refl, (apart (lit "bundle.pem") refl, tt)),
          ),
        ),
      )
      (beside_prefix (resolve dir) (lit "archive") (lit "accounts") rest
        (str_ne (lit "archive") (lit "accounts") refl))
  where
    apart :
        (a : Str)
        → str_eq a (lit "accounts") ≡ false
        → resolve dir ++ (a ∷ []) ≢ resolve dir ++ (lit "accounts" ∷ rest)
    apart a h = beside-ne (resolve dir) a (lit "accounts") rest (str_ne a (lit "accounts") h)
