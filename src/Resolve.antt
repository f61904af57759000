-- ===== src/Resolve.antt =====
-- internal/resolve/fqdn.go: the name that the certificate is for.
use syscert.Base.{
  ℕ, true, not, ◌≡◌, ◌≢◌, ◌↔◌, refl, sym, subst, [], ◌∷◌, ◌++◌, arith, if◌then◌else◌, ◌==◌,
  Bool-cases, inl, inr,
}
use syscert.Go.Strings.{Str, is_empty, trim_space, has_byte}
use syscert.Os.{text, wrap, Result, ok, err}

-- strings.TrimSuffix(s, ".")
unfoldable pub trim_dot : Str → Str
trim_dot [] = []
trim_dot (c ∷ []) = if c == 46 then [] else c ∷ []
trim_dot (c ∷ d ∷ s) = c ∷ trim_dot (d ∷ s)

unfoldable pub qualified : Str → Result Str
qualified name =
    if not (has_byte 46 (trim_dot name))
    then err (text "system hostname %q is not a FQDN; set cert.hostname in the config" (name ∷ []))
    else ok name

-- `hostname` is what os.Hostname returns.
unfoldable pub fqdn : Str → Result Str → Result Str
unfolding qualified
fqdn override hostname = if not (is_empty override) then ok override else elim hostname [
  | err e ↦ err (wrap "determine system hostname: %w" [] e)
  | ok name ↦ qualified (trim_space name)
]

-- A text with a dot that is not its last byte.
abbrev pub HasDomain : Str → Type 0
HasDomain name = (host : Str) × (c : ℕ) × (rest : Str) × (name ≡ host ++ (46 ∷ c ∷ rest))

inner_dot : (name : Str) → has_byte 46 (trim_dot name) ≡ true → HasDomain name
unfolding has_byte trim_dot
inner_dot [] h = cc
inner_dot (c ∷ []) h = ground arith
inner_dot (c ∷ d ∷ s) h = elim (Bool-cases (c == 46)) [
  | inl y ↦ ([], d, s, ground arith)
  | inr n ↦ let (host, x, rest, e) = inner_dot (d ∷ s) (ground arith) in (c ∷ host, x, rest, cc)
]

dot_inner :
    (host : Str) (c : ℕ) (rest : Str) → has_byte 46 (trim_dot (host ++ (46 ∷ c ∷ rest))) ≡ true
unfolding has_byte trim_dot
dot_inner [] c rest = refl
dot_inner (x ∷ []) c rest = ground arith
dot_inner (x ∷ y ∷ host) c rest = ground (arith, dot_inner (y ∷ host) c rest)

qualified-ok :
    (name subject : Str) → qualified name ≡ ok subject → (subject ≡ name) × HasDomain name
unfolding qualified
qualified-ok name subject p = elim (Bool-cases (has_byte 46 (trim_dot name))) [
  | inl y ↦ (ground arith, inner_dot name y)
  | inr n ↦ ground arith
]

ok-qualified : (name : Str) → HasDomain name → qualified name ≡ ok name
unfolding qualified
ok-qualified name (host, c, rest, e) =
    subst (λ n. qualified n ≡ ok n) (sym e) (ground (arith, dot_inner host c rest))

-- With no override the subject is the trimmed system name, accepted exactly if it has a dot before
-- its last byte; a failing look-up is an error; an override is taken as it is.
fqdn_cases :
    (override : Str) (hostname : Result Str) (subject : Str)
    → (override ≢ [] → fqdn override hostname ≡ ok override)
      × ((fqdn [] hostname ≡ ok subject)
          ↔ ((raw : Str) × (hostname ≡ ok raw) × (subject ≡ trim_space raw) × HasDomain subject))
unfolding fqdn
fqdn_cases override hostname subject = (given override, (found hostname, back))
  where
    given : (o : Str) → o ≢ [] → fqdn o hostname ≡ ok o
    given [] ne = absurd (ne refl)
    given (c ∷ o) ne = refl

    found :
        (h : Result Str)
        → fqdn [] h ≡ ok subject
        → (raw : Str) × (h ≡ ok raw) × (subject ≡ trim_space raw) × HasDomain subject
    found (err e) p = cc
    found (ok raw) p =
        let (e, d) = qualified-ok (trim_space raw) subject p in
        (raw, refl, e, subst HasDomain (sym e) d)

    back :
        ((raw : Str) × (hostname ≡ ok raw) × (subject ≡ trim_space raw) × HasDomain subject)
        → fqdn [] hostname ≡ ok subject
    back (raw, e, t, d) =
        subst (λ h. fqdn [] h ≡ ok subject) (sym e)
          (subst (λ n. qualified n ≡ ok subject) t (ok-qualified subject d))
