-- ===== src/Os/Holds.antt =====
-- Actions that keep a file's content and mode, or give it one.
use syscert.Base.{
  ℕ, ◌≡◌, ◌≢◌, refl, sym, ap, subst, ◌∙◌, Bool-cases, inl, inr, Option, none, some, arith,
}
use syscert.Go.Strings.{Str}
use syscert.Go.Filepath.{FilePath}
use syscert.Os.{
  Meta, Node, file, directory, lookup, insert, path_eq, Result, ok, err, Sys, Exec, advance,
}
use syscert.Os.Calls.{chown, chcon, read_file, read_node, update_node, change_meta, or_keep}
use syscert.Os.Laws.{path_eq_iff, lookup-insert, lookup-insert_self}
use syscert.Os.Triples.{Outcome, Triple, Triple-call}

pub ok_inj : {A : Type 0} {a b : A} → ◌≡◌ {A = Result A} (ok a) (ok b) → a ≡ b
ok_inj e = cc

-- The file at `p` has this content and this mode, and some owner.
abbrev pub Holds : FilePath → Str → ℕ → Sys → Type 0
Holds p content mode s = (m : Meta) × (lookup p s.fs ≡ some (file content m)) × (m.mode ≡ mode)

-- What is at `q` is as given.
abbrev pub Finds : FilePath → Option Node → Sys → Type 0
Finds q x s = lookup q s.fs ≡ x

abbrev pub Anything : Sys → Type 0
Anything s = Unit {0}

-- If the action returns from a state with `P`, then in one with `Q`.
abbrev pub Ensures : {A : Type 0} → (Sys → Type 0) → Exec A → (Sys → Type 0) → Type 0
Ensures P m Q = Triple P m (λ _. Q) Anything

pub Ensures-nothing : {A : Type 0} (m : Exec A) → Ensures Anything m Anything
Ensures-nothing {A} m = record { at = λ s h. go (m s).0 (m s).1 }
  where
    go : (r : Result A) (t : Sys) → Outcome (λ _. Anything) Anything r t
    go (ok a) t = tt
    go (err e) t = tt

pub Ensures-also :
    {A : Type 0} {P Q Q' : Sys → Type 0} (m : Exec A)
    → Ensures P m Q
    → Ensures Anything m Q'
    → Ensures P m (λ s. Q s × Q' s)
Ensures-also {A} {Q} {Q'} m f g = record { at = λ s h. go (m s).0 (m s).1 (f.at s h) (g.at s tt) }
  where
    go :
        (r : Result A) (t : Sys)
        → Outcome (λ _. Q) Anything r t
        → Outcome (λ _. Q') Anything r t
        → Outcome (λ _ s. Q s × Q' s) Anything r t
    go (ok a) t x y = (x, y)
    go (err e) t x y = tt

-- The condition after an action that returned.
pub Ensures-at :
    {A : Type 0} {P Q : Sys → Type 0} (m : Exec A) (a : A) (s t : Sys)
    → Ensures P m Q
    → P s
    → m s ≡ (ok a, t)
    → Q t
Ensures-at {A} {Q} m a s t f h e = go (m s) (f.at s h) e
  where
    go : (r : Result A × Sys) → Outcome (λ _. Q) Anything r.0 r.1 → r ≡ (ok a, t) → Q t
    go (ok b, u) k e = subst Q (ap (λ r. r.1) e) k
    go (err x, u) k e = cc (ap (λ r. r.0) e)

pub node_inj : {c d : Str} {m n : Meta} → some (file c m) ≡ some (file d n) → (c ≡ d) × (m ≡ n)
node_inj e = (cc, cc)

chown_node :
    (p q : FilePath) (f : Meta → Meta) (content : Str) (mode : ℕ)
    → ((m : Meta) → (f m).mode ≡ m.mode)
    → (s : Sys) (o : Option Node) → lookup p s.fs ≡ o
    → Holds q content mode s
    → Outcome (λ _. Holds q content mode) Anything (update_node p f o s).0 (update_node p f o s).1
chown_node p q f content mode same s none at h = tt
chown_node p q f content mode same s (some n) at (m, there, right) =
    elim (Bool-cases (path_eq p q)) [
      | inl y ↦ here n at ((path_eq_iff p q).0 y)
      | inr other ↦ (m, lookup-insert p q (change_meta f n) s.fs ∙ rw other there, right)
    ]
  where
    here :
        (n : Node)
        → lookup p s.fs ≡ some n
        → p ≡ q
        → (k : Meta) × (lookup q (insert p (change_meta f n) s.fs) ≡ some (file content k))
          × (k.mode ≡ mode)
    here (directory d) at e = cc
    here (file c d) at e =
        let same_node = node_inj (sym at ∙ (ap (λ r. lookup r s.fs) e ∙ there)) in
        (
          f d,
          ap (λ r. lookup q (insert r (file c (f d)) s.fs)) e
              ∙ (lookup-insert_self q _ s.fs ∙ ap (λ x. some (file x (f d))) same_node.0),
          same d ∙ (ap (λ x. x.mode) same_node.1 ∙ right),
        )

-- A change of owner keeps content and mode of every file.
pub chown-Holds :
    (p q : FilePath) (uid gid : Option ℕ) (content : Str) (mode : ℕ)
    → Ensures (Holds q content mode) (chown p uid gid) (Holds q content mode)
unfolding chown
chown-Holds p q uid gid content mode =
    let f = λ (m : Meta). record m { uid = or_keep uid m.uid; gid = or_keep gid m.gid } in
    Triple-call (λ s. update_node p f (lookup p s.fs) s) (λ s h. tt)
      (λ s h. chown_node p q f content mode (λ m. refl) (advance s) (lookup p s.fs) refl h)

-- A change of label keeps content and mode.
pub chcon-Holds :
    (p q : FilePath) (label content : Str) (mode : ℕ)
    → Ensures (Holds q content mode) (chcon p label) (Holds q content mode)
unfolding chcon
chcon-Holds p q label content mode =
    let f = λ (m : Meta). record m { label = label } in
    Triple-call (λ s. update_node p f (lookup p s.fs) s) (λ s h. tt)
      (λ s h. chown_node p q f content mode (λ m. refl) (advance s) (lookup p s.fs) refl h)

update-Finds :
    (p q : FilePath) (f : Meta → Meta) (x : Option Node)
    → p ≢ q
    → (s : Sys) (o : Option Node) → Finds q x s
    → Outcome (λ _. Finds q x) Anything (update_node p f o s).0 (update_node p f o s).1
update-Finds p q f x ne s none h = tt
update-Finds p q f x ne s (some n) h =
    lookup-insert p q (change_meta f n) s.fs ∙ ground (arith, path_eq_iff p q, h)

pub chcon-Finds :
    (p q : FilePath) (label : Str) (x : Option Node)
    → p ≢ q
    → Ensures (Finds q x) (chcon p label) (Finds q x)
unfolding chcon
chcon-Finds p q label x ne =
    let f = λ (m : Meta). record m { label = label } in
    Triple-call (λ s. update_node p f (lookup p s.fs) s) (λ s h. tt)
      (λ s h. update-Finds p q f x ne (advance s) (lookup p s.fs) h)

-- A read that returns gives the content of the file, and changes nothing.
pub read_file-Finds :
    (p q : FilePath) (x : Option Node) → Ensures (Finds q x) (read_file p) (Finds q x)
unfolding read_file
read_file-Finds p q x =
    Triple-call (λ s. read_node (lookup p s.fs) s) (λ s h. tt)
      (λ s h. go (advance s) (lookup p s.fs) h)
  where
    go :
        (s : Sys) (o : Option Node)
        → Finds q x s
        → Outcome (λ _. Finds q x) Anything (read_node o s).0 (read_node o s).1
    go s none h = tt
    go s (some (directory m)) h = tt
    go s (some (file c m)) h = h

pub read_file-content :
    (p : FilePath) (x : Option Node)
    → Triple
        (Finds p x)
        (read_file p)
        (λ content _. ((m : Meta) × (x ≡ some (file content m))) × Unit {0})
        Anything
unfolding read_file
read_file-content p x =
    Triple-call (λ s. read_node (lookup p s.fs) s) (λ s h. tt)
      (λ s h. go (advance s) (lookup p s.fs) h)
  where
    go :
        (s : Sys) (o : Option Node)
        → o ≡ x
        → Outcome
            (λ content _. ((m : Meta) × (x ≡ some (file content m))) × Unit {0})
            Anything
            (read_node o s).0
            (read_node o s).1
    go s none h = tt
    go s (some (directory m)) h = tt
    go s (some (file c m)) h = ((m, sym h), tt)
