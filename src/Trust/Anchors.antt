-- ===== src/Trust/Anchors.antt =====
-- What internal/trust/trust.go touches of the trust store.
use syscert.Base.{
  ℕ, ◌≡◌, ◌≢◌, refl, ◌∙◌, ◌⊎◌, inl, inr, Bool, true, false, Bool-cases, List, [], ◌∷◌, All, ◌&&◌,
  if◌then◌else◌,
}
use syscert.Go.Strings.{Str, trim, trim_left, trim_right, is_empty}
use syscert.Go.Filepath.{FilePath, in_dir}
use syscert.Os.{Result, ok, err, Sys, lookup}
use syscert.Os.Calls.{remove}
use syscert.Os.Frames.{frame_remove}
use syscert.Distribute.{is_errno}
use syscert.Store.Disk.{is_not_exist}
use syscert.Trust.{is_alnum, is_hyphen, hyphenate, sanitize, remove_anchors, after_remove}

-- The bytes of a sanitized name.
abbrev pub IsNameByte : ℕ → Type 0
IsNameByte c = (is_alnum c ≡ true) ⊎ (c ≡ 45)

All-hyphenate : (last : Bool) (s : Str) → All IsNameByte (hyphenate last s)
unfolding hyphenate
All-hyphenate last [] = tt
All-hyphenate last (c ∷ s) = elim (Bool-cases (is_alnum c)) [
  | inl y ↦ rw y (inl y, All-hyphenate false s)
  | inr n ↦ rw n (dashed last (All-hyphenate true s))
]
  where
    dashed :
        (b : Bool)
        → All IsNameByte (hyphenate true s)
        → All IsNameByte (if b then hyphenate true s else 45 ∷ hyphenate true s)
    dashed true rest = rest
    dashed false rest = (inr refl, rest)

All-trim_left : (p : ℕ → Bool) (s : Str) → All IsNameByte s → All IsNameByte (trim_left p s)
unfolding trim_left
All-trim_left p [] h = tt
All-trim_left p (c ∷ s) h = elim (Bool-cases (p c)) [
  | inl y ↦ rw y (All-trim_left p s h.1)
  | inr n ↦ rw n h
]

All-trim_right : (p : ℕ → Bool) (s : Str) → All IsNameByte s → All IsNameByte (trim_right p s)
unfolding trim_right
All-trim_right p [] h = tt
All-trim_right p (c ∷ s) h = go (is_empty (trim_right p s) && p c) (All-trim_right p s h.1)
  where
    go :
        (b : Bool)
        → All IsNameByte (trim_right p s)
        → All IsNameByte (if b then [] else c ∷ trim_right p s)
    go true rest = tt
    go false rest = (h.0, rest)

-- A sanitized name has only lower-case letters, digits and hyphens, for any common name and any
-- lower-casing.
pub All-sanitize : (to_lower : Str → Str) (s : Str) → All IsNameByte (sanitize to_lower s)
unfolding sanitize trim
All-sanitize to_lower s =
    All-trim_right is_hyphen _
      (All-trim_left is_hyphen (hyphenate false (to_lower s)) (All-hyphenate false (to_lower s)))

after_remove-frame :
    (q : FilePath) (name : Str) (removed next : Result (Unit {0}) × Sys)
    → lookup q next.1.fs ≡ lookup q removed.1.fs
    → lookup q (after_remove name removed next).1.fs ≡ lookup q removed.1.fs
after_remove-frame q name (ok u, s) next h = h
after_remove-frame q name (err e, s) next h = elim (Bool-cases (is_errno is_not_exist e)) [
  | inl y ↦ rw y h
  | inr n ↦ rw n refl
]

-- Removing anchors changes no file but those it was given, whatever calls fail.
pub remove_anchors-frame :
    (anchor_dir : Str) (names : List Str) (q : FilePath) (s : Sys)
    → All (λ name. in_dir anchor_dir name ≢ q) names
    → lookup q (remove_anchors anchor_dir names s).1.fs ≡ lookup q s.fs
unfolding remove_anchors
remove_anchors-frame anchor_dir [] q s h = refl
remove_anchors-frame anchor_dir (name ∷ names) q s h =
    let removed = remove (in_dir anchor_dir name) s in
    after_remove-frame q name removed (remove_anchors anchor_dir names removed.1)
      (remove_anchors-frame anchor_dir names q removed.1 h.1)
    ∙ frame_remove q (in_dir anchor_dir name) h.0 s
