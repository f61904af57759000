-- ===== src/Os/Triples.antt =====
-- What an action ensures: one condition on the state where it returns, another where it fails.
use Prim.Native.String.{String}
use syscert.Base.{◌≡◌, sym, subst, Option, none, some, List, Bool, true, false, if◌then◌else◌}
use syscert.Go.Strings.{Str}
use syscert.Os.{
  Result, ok, err, Error, Sys, Exec, pure, raise, ◌>>=◌, wrapping, call, Fault, next_fault, advance,
}
use syscert.Os.Calls.{deferring}

abbrev pub Outcome : {A : Type 0} → (A → Sys → Type 0) → (Sys → Type 0) → Result A → Sys → Type 0
Outcome Q E (ok a) s = Q a s
Outcome Q E (err e) s = E s

-- From a state with `P`, `m` returns in one with `Q` or fails in one with `E`.
pub record Triple {A : Type 0} (P : Sys → Type 0) (m : Exec A) (Q : A → Sys → Type 0)
    (E : Sys → Type 0) : Type 0 where
  pub at : (s : Sys) → P s → Outcome Q E (m s).0 (m s).1

abbrev Pair : Type 0 → Type 0
Pair A = Result A × Sys

abbrev Ends : {A : Type 0} → (A → Sys → Type 0) → (Sys → Type 0) → Pair A → Type 0
Ends Q E p = Outcome Q E p.0 p.1

module _ {A : Type 0} (Q : A → Sys → Type 0) (E : Sys → Type 0) where
  Ends-call :
      (act : Exec A) (s : Sys) (f : Option Fault)
      → E (advance s)
      → Ends Q E (act (advance s))
      → Ends Q E (elim f [ none ↦ act (advance s) | some f ↦ (err (Error.sys f.errno), advance s) ])
  Ends-call act s none e h = h
  Ends-call act s (some f) e h = e

  Ends-wrap :
      (format : String) (values : List Str) (r : Result A) (s : Sys)
      → Outcome Q E r s
      → Ends Q E (elim r [ ok a ↦ (ok a, s) | err e ↦ (err (Error.wrap format values e), s) ])
  Ends-wrap format values (ok a) s h = h
  Ends-wrap format values (err e) s h = h

pub whatever : (R : Sys → Type 0) (r : Result (Unit {0})) (t : Sys) → Outcome (λ _. R) R r t → R t
whatever R (ok u) t h = h
whatever R (err e) t h = h

Outcome-defer :
    {A : Type 0} (Q : A → Sys → Type 0) (E : Sys → Type 0) (after : Exec (Unit {0}))
    → ((a : A) → Triple (Q a) after (λ _. Q a) (Q a))
    → Triple E after (λ _. E) E
    → (r : Result A) (s : Sys) → Outcome Q E r s
    → Outcome Q E r (after s).1
Outcome-defer Q E after k e (ok a) s h = whatever (Q a) (after s).0 (after s).1 ((k a).at s h)
Outcome-defer Q E after k e (err x) s h = whatever E (after s).0 (after s).1 (e.at s h)

Outcome-bind :
    {A B : Type 0} (Q : A → Sys → Type 0) (R : B → Sys → Type 0) (E : Sys → Type 0) (f : A → Exec B)
    → ((a : A) → Triple (Q a) (f a) R E)
    → (r : Result A) (s : Sys) → Outcome Q E r s
    → Ends R E (((λ _. (r, s)) >>= f) s)
unfolding ◌>>=◌
Outcome-bind Q R E f k (ok a) s h = (k a).at s h
Outcome-bind Q R E f k (err e) s h = h

module _ {A : Type 0} {P : Sys → Type 0} {Q : A → Sys → Type 0} {E : Sys → Type 0} where
  pub Triple-pure : (a : A) → ((s : Sys) → P s → Q a s) → Triple P (pure a) Q E
  unfolding pure
  Triple-pure a f = record { at = f }

  pub Triple-raise : (e : Error) → ((s : Sys) → P s → E s) → Triple P (raise {A = A} e) Q E
  unfolding raise
  Triple-raise e f = record { at = f }

  -- A call that may be made to fail, and changes nothing then.
  pub Triple-call :
      (act : Exec A)
      → ((s : Sys) → P s → E (advance s))
      → ((s : Sys) → P s → Outcome Q E (act (advance s)).0 (act (advance s)).1)
      → Triple P (call act) Q E
  unfolding call
  Triple-call act fails runs = record {
    at = λ s h. Ends-call Q E act s (next_fault s.faults) (fails s h) (runs s h);
  }

  pub Triple-wrapping :
      (format : String) (values : List Str) (m : Exec A)
      → Triple P m Q E
      → Triple P (wrapping format values m) Q E
  unfolding wrapping
  Triple-wrapping format values m t = record {
    at = λ s h. Ends-wrap Q E format values (m s).0 (m s).1 (t.at s h);
  }

  pub Triple-deferring :
      (after : Exec (Unit {0})) (body : Exec A)
      → ((a : A) → Triple (Q a) after (λ _. Q a) (Q a))
      → Triple E after (λ _. E) E
      → Triple P body Q E
      → Triple P (deferring after body) Q E
  unfolding deferring
  Triple-deferring after body k e t = record {
    at = λ s h. Outcome-defer Q E after k e (body s).0 (body s).1 (t.at s h);
  }

module _ {A B : Type 0} {P : Sys → Type 0} {Q : A → Sys → Type 0} {R : B → Sys → Type 0}
    {E : Sys → Type 0} where
  pub Triple-bind :
      (m : Exec A) (f : A → Exec B)
      → Triple P m Q E
      → ((a : A) → Triple (Q a) (f a) R E)
      → Triple P (m >>= f) R E
  unfolding ◌>>=◌
  Triple-bind m f t k = record { at = λ s h. Outcome-bind Q R E f k (m s).0 (m s).1 (t.at s h) }

-- A value that the precondition fixes.
pub Triple-fixed :
    {A B : Type 0} {P : Sys → Type 0} {Q : B → Sys → Type 0} {E : Sys → Type 0} (x : A)
    (f : A → Exec B)
    → Triple P (f x) Q E
    → (a : A) → Triple (λ s. (a ≡ x) × P s) (f a) Q E
Triple-fixed {Q} {E} x f t a = record {
  at = λ s h. subst (λ y. Ends Q E (f y s)) (sym h.0) (t.at s h.1);
}

pub Outcome-if :
    {A : Type 0} (Q : A → Sys → Type 0) (E : Sys → Type 0) (b : Bool) (x y : Result A × Sys)
    → Outcome Q E x.0 x.1
    → Outcome Q E y.0 y.1
    → Outcome Q E (if b then x else y).0 (if b then x else y).1
Outcome-if Q E true x y h k = h
Outcome-if Q E false x y h k = k

-- A condition that does not speak of the state stays, and the action may rely on it.
pub Triple-also :
    {A : Type 0} {P : Sys → Type 0} {Q : A → Sys → Type 0} {E : Sys → Type 0} (X : Type 0)
    (m : Exec A)
    → (X → Triple P m Q E)
    → Triple (λ s. X × P s) m (λ a s. X × Q a s) E
Triple-also {A} {Q} {E} X m t = record { at = λ s h. go h.0 (m s).0 (m s).1 ((t h.0).at s h.1) }
  where
    go : X → (r : Result A) (u : Sys) → Outcome Q E r u → Outcome (λ a s. X × Q a s) E r u
    go x (ok a) u k = (x, k)
    go x (err e) u k = k

module _ {A : Type 0} {P : Sys → Type 0} {Q : A → Sys → Type 0} {E : Sys → Type 0} where
  -- A condition that does not speak of the state, used and dropped.
  pub Triple-given : (X : Type 0) (m : Exec A) → (X → Triple P m Q E) → Triple (λ s. X × P s) m Q E
  Triple-given X m t = record { at = λ s h. (t h.0).at s h.1 }

  pub Triple-map :
      (R : A → Sys → Type 0) (m : Exec A)
      → ((a : A) (s : Sys) → Q a s → R a s)
      → Triple P m Q E
      → Triple P m R E
  Triple-map R m f t = record { at = λ s h. go (m s).0 (m s).1 (t.at s h) }
    where
      go : (r : Result A) (u : Sys) → Outcome Q E r u → Outcome R E r u
      go (ok a) u k = f a u k
      go (err e) u k = k
