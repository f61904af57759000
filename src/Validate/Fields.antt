-- ===== src/Validate/Fields.antt =====
-- The single settings of internal/validate/validate.go against their rules.
use syscert.Base.{
  ◌≡◌, refl, ◌≢◌, ◌↔◌, ◌⊎◌, inl, inr, Bool, true, false, not, ◌&&◌, Option, none, some, [], ◌∷◌,
  arith, ℕ, if◌then◌else◌,
}
use syscert.Base.Int.{ℤ, pos, negsuc}
use syscert.Go.Strings.{Str, lit, is_empty, str_eq, str_eq_iff, contains, contains_iff, OneOf}
use syscert.Config.{Config, is_internal_ca}
use syscert.Validate.{
  Problem, is_negative, is_none, ca_problems, challenge_problems, valid_cas, valid_challenges,
}
use syscert.Validate.Parts.{then_iff}

-- A first test with a message of its own, before the look-up in a table that lacks what it catches.
pub caught_iff :
    (first listed : Bool) (p q : Problem)
    → (first ≡ true → listed ≡ false)
    → ((if first then p ∷ [] else (if not listed then q ∷ [] else [])) ≡ []) ↔ (listed ≡ true)
caught_iff true true p q h = absurd (absurd_test (h refl))
  where
    absurd_test : true ≡ false → ⊥
    absurd_test e = cc
caught_iff true false p q h = (λ e. cc, λ e. cc)
caught_iff false true p q h = (λ e. refl, λ e. refl)
caught_iff false false p q h = (λ e. cc, λ e. cc)

pub no_empty_ca : (ca : Str) → is_empty ca ≡ true → contains valid_cas ca ≡ false
unfolding ca_problems contains str_eq lit
no_empty_ca [] h = refl
no_empty_ca (c ∷ ca) h = cc

pub ca_iff :
    (c : Config) → (ca_problems c ≡ []) ↔ OneOf c.acme.ca (lit "letsencrypt" ∷ lit "custom" ∷ [])
unfolding ca_problems
ca_iff c =
    then_iff
      (caught_iff (is_empty c.acme.ca) (contains valid_cas c.acme.ca) _ _ (no_empty_ca c.acme.ca))
      (contains_iff valid_cas c.acme.ca)

pub custom_is_internal : is_internal_ca (lit "custom") ≡ true
unfolding is_internal_ca lit str_eq
custom_is_internal = refl

pub letsencrypt_is_public : is_internal_ca (lit "letsencrypt") ≡ false
unfolding is_internal_ca lit str_eq
letsencrypt_is_public = refl

pub custom-ne-letsencrypt : lit "custom" ≢ lit "letsencrypt"
unfolding lit
custom-ne-letsencrypt e = ground arith

pub directory_iff :
    (ca url : Str)
    → OneOf ca (lit "letsencrypt" ∷ lit "custom" ∷ [])
    → ((is_internal_ca ca && is_empty url) ≡ false) ↔ (ca ≢ lit "letsencrypt" → url ≢ [])
directory_iff ca url (inl e) = rw (e, letsencrypt_is_public) (λ _ ne. absurd (ne refl), λ _. refl)
directory_iff ca [] (inr e) =
    rw (e, custom_is_internal) (λ h. cc, λ k. absurd (k custom-ne-letsencrypt refl))
directory_iff ca (x ∷ url) (inr e) = rw (e, custom_is_internal) (λ _ _ p. cc, λ _. refl)

pub file_iff :
    (p : Str) (ok : Bool) → ((not (is_empty p) && not ok) ≡ false) ↔ ((p ≡ []) ⊎ (ok ≡ true))
file_iff [] ok = (λ _. inl refl, λ _. refl)
file_iff (c ∷ p) true = (λ _. inr refl, λ _. refl)
file_iff (c ∷ p) false = (λ h. cc, elim [ inl e ↦ cc | inr h ↦ cc ])

pub dir_mode_iff :
    (m : Str) (o : Option ℕ)
    → ((not (is_empty m) && is_none o) ≡ false) ↔ ((m ≡ []) ⊎ ((v : ℕ) × (o ≡ some v)))
dir_mode_iff [] o = (λ _. inl refl, λ _. refl)
dir_mode_iff (c ∷ m) none = (λ h. cc, elim [ inl e ↦ cc | inr h ↦ cc h.1 ])
dir_mode_iff (c ∷ m) (some v) = (λ h. inr (v, refl), λ h. refl)

pub archive_keep_iff : (k : ℤ) → (is_negative k ≡ false) ↔ ((n : ℕ) × (k ≡ pos n))
archive_keep_iff (pos n) = (λ _. (n, refl), λ _. refl)
archive_keep_iff (negsuc n) = (λ h. cc, λ h. cc h.1)

pub persist_unlisted : contains valid_challenges (lit "dns-persist-01") ≡ false
unfolding challenge_problems contains str_eq lit
persist_unlisted = refl

pub no_persist_challenge :
    (ch : Str) → str_eq ch (lit "dns-persist-01") ≡ true → contains valid_challenges ch ≡ false
no_persist_challenge ch h = rw ((str_eq_iff ch (lit "dns-persist-01")).0 h) persist_unlisted

pub challenge_iff :
    (c : Config)
    → (challenge_problems c ≡ [])
      ↔ OneOf c.acme.challenge (lit "dns-01" ∷ lit "http-01" ∷ lit "tls-alpn-01" ∷ [])
unfolding challenge_problems
challenge_iff c =
    then_iff
      (caught_iff (str_eq c.acme.challenge (lit "dns-persist-01"))
        (contains valid_challenges c.acme.challenge) _ _ (no_persist_challenge c.acme.challenge))
      (contains_iff valid_challenges c.acme.challenge)
