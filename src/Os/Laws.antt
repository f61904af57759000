-- ===== src/Os/Laws.antt =====
-- The laws of the file map.
use syscert.Base.{◌≡◌, ◌≢◌, false, refl, ◌↔◌, true, none, some, [], ◌∷◌, arith, if◌then◌else◌}
use syscert.Go.Strings.{str_eq_iff}
use syscert.Go.Filepath.{FilePath}
use syscert.Os.{Node, Fs, path_eq, lookup, insert, erase}

pub path_eq_iff : (p q : FilePath) → (path_eq p q ≡ true) ↔ (p ≡ q)
unfolding path_eq
path_eq_iff (a ∷ p) (b ∷ q) = ground (arith, path_eq_iff p q, str_eq_iff a b)
path_eq_iff _ _ = ground arith

pub lookup-insert :
    (p q : FilePath) (n : Node) (fs : Fs)
    → lookup q (insert p n fs) ≡ (if path_eq p q then some n else lookup q fs)
unfolding lookup insert
lookup-insert p q n [] = refl
lookup-insert p q n ((r, m) ∷ fs) =
    ground (arith, path_eq_iff p q, path_eq_iff r p, path_eq_iff r q, lookup-insert p q n fs)

pub lookup-erase :
    (p q : FilePath) (fs : Fs) → lookup q (erase p fs) ≡ (if path_eq p q then none else lookup q fs)
unfolding lookup erase
lookup-erase p q [] = ground arith
lookup-erase p q ((r, m) ∷ fs) =
    ground (arith, path_eq_iff p q, path_eq_iff r p, path_eq_iff r q, lookup-erase p q fs)

pub path_ne : (p q : FilePath) → path_eq p q ≡ false → p ≢ q
path_ne p q h e = cc ((path_eq_iff p q).1 e)

pub lookup-insert_self : (q : FilePath) (n : Node) (fs : Fs) → lookup q (insert q n fs) ≡ some n
lookup-insert_self q n fs = rw lookup-insert (ground (arith, path_eq_iff q q))
