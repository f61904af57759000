-- ===== src/Validate/Parts.antt =====
-- How checks that are chained pass: each on its own.
use Prim.Native.String.{String}
use syscert.Base.{◌≡◌, refl, ◌↔◌, Bool, true, false, not, List, [], ◌∷◌, ◌++◌, arith}
use syscert.Go.Strings.{Str, is_empty, contains, contains_iff, OneOf}
use syscert.Validate.{Problem, problem_if}

pub append-eq-nil {ℓ} : {A : Type ℓ} (xs ys : List A) → (xs ++ ys ≡ []) ↔ ((xs ≡ []) × (ys ≡ []))
append-eq-nil [] ys = (λ h. (refl, h), λ h. h.1)
append-eq-nil (x ∷ xs) ys = (λ h. cc, λ h. cc)

pub problem_if-eq-nil :
    (b : Bool) (f : Str) (m : String) (vs : List Str) → (problem_if b f m vs ≡ []) ↔ (b ≡ false)
problem_if-eq-nil true f m vs = (λ h. cc, λ h. cc)
problem_if-eq-nil false f m vs = (λ h. refl, λ h. refl)

pub is_empty_iff : (s : Str) → (is_empty s ≡ true) ↔ (s ≡ [])
is_empty_iff [] = (λ h. refl, λ h. refl)
is_empty_iff (c ∷ s) = (λ h. cc, λ h. cc)

abbrev pub two : {A B C D : Type 0} → A ↔ B → C ↔ D → (A × C) ↔ (B × D)
two f g = (λ h. (f.0 h.0, g.0 h.1), λ h. (f.1 h.0, g.1 h.1))

abbrev pub then_iff : {A B C : Type 0} → A ↔ B → B ↔ C → A ↔ C
then_iff f g = (λ h. g.0 (f.0 h), λ h. f.1 (g.1 h))

pub not-false_iff : (b : Bool) → (not b ≡ false) ↔ (b ≡ true)
not-false_iff b = ground arith

-- A chain of checks passes when each does.
pub parts_iff :
    {B C : Type 0} (xs ys : List Problem)
    → (xs ≡ []) ↔ B
    → (ys ≡ []) ↔ C
    → (xs ++ ys ≡ []) ↔ (B × C)
parts_iff xs ys f g = then_iff (append-eq-nil xs ys) (two f g)

pub listed_iff :
    (table : List Str) (s f : Str) (m : String) (vs : List Str)
    → (problem_if (not (contains table s)) f m vs ≡ []) ↔ OneOf s table
listed_iff table s f m vs =
    then_iff (problem_if-eq-nil _ f m vs) (then_iff (not-false_iff _) (contains_iff table s))
