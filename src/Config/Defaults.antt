-- ===== src/Config/Defaults.antt =====
-- What the defaults of internal/config/config.go guarantee.
use syscert.Base.{◌≡◌, ◌≢◌, refl, ◌&&◌, List, [], ◌∷◌, arith, if◌then◌else◌}
use syscert.Go.Strings.{Str, lit, str_eq, str_eq_iff}
use syscert.Config.{Config, default_to, default_order, apply_defaults, effective_challenge, has_any}

default_to_idem : (d s : Str) → default_to d (default_to d s) ≡ default_to d s
unfolding default_to
default_to_idem [] [] = refl
default_to_idem (x ∷ d) [] = refl
default_to_idem d (x ∷ s) = refl

default_order_idem : (o : List Str) → default_order (default_order o) ≡ default_order o
unfolding default_order
default_order_idem [] = refl
default_order_idem (x ∷ o) = refl

-- Applying the defaults to a configuration that has them changes nothing.
apply_defaults_idem : (c : Config) → apply_defaults (apply_defaults c) ≡ apply_defaults c
unfolding apply_defaults
apply_defaults_idem c = ground (
  arith,
  default_to_idem (lit "ec256") c.cert.key_type,
  default_to_idem (lit "dns-01") c.acme.challenge,
  default_to_idem (lit "/var/lib/syscert") c.store.path,
  default_to_idem (lit "0700") c.store.dir_mode,
  default_order_idem c.bundle.order,
  default_to_idem (lit "info") c.logging.level,
)

-- The settings that have defaults are all set.
pub record IsComplete (c : Config) : Type 0 where
  pub key_type : c.cert.key_type ≢ []
  pub challenge : c.acme.challenge ≢ []
  pub path : c.store.path ≢ []
  pub dir_mode : c.store.dir_mode ≢ []
  pub level : c.logging.level ≢ []
  pub order : c.bundle.order ≢ []

default_to-ne-nil : (d s : Str) → d ≢ [] → default_to d s ≢ []
unfolding default_to
default_to-ne-nil d [] h = h
default_to-ne-nil d (x ∷ s) h = λ e. cc

default_order-ne-nil : (o : List Str) → default_order o ≢ []
unfolding default_order
default_order-ne-nil [] = λ e. cc
default_order-ne-nil (x ∷ o) = λ e. cc

apply_defaults-IsComplete : (c : Config) → IsComplete (apply_defaults c)
unfolding apply_defaults lit
apply_defaults-IsComplete c = record {
  key_type = default_to-ne-nil (lit "ec256") c.cert.key_type (λ e. cc);
  challenge = default_to-ne-nil (lit "dns-01") c.acme.challenge (λ e. cc);
  path = default_to-ne-nil (lit "/var/lib/syscert") c.store.path (λ e. cc);
  dir_mode = default_to-ne-nil (lit "0700") c.store.dir_mode (λ e. cc);
  level = default_to-ne-nil (lit "info") c.logging.level (λ e. cc);
  order = default_order-ne-nil c.bundle.order;
}

http-ne-dns : lit "http-01" ≢ lit "dns-01"
unfolding lit
http-ne-dns e = ground arith

challenge_of : List Str → Str → Str
challenge_of ips ch = if has_any ips && str_eq ch (lit "dns-01") then lit "http-01" else ch

-- With IP addresses in the certificate the DNS challenge is never used, an IP-compatible one is
-- kept, and without addresses the configured challenge stands.
pub effective_challenge_cases :
    (c : Config)
    → ((c.cert.ip_sans ≡ []) → effective_challenge c ≡ c.acme.challenge)
      × ((c.cert.ip_sans ≢ []) → effective_challenge c ≢ lit "dns-01")
      × ((c.acme.challenge ≢ lit "dns-01") → effective_challenge c ≡ c.acme.challenge)
unfolding effective_challenge challenge_of
effective_challenge_cases c = (
  no_ips c.cert.ip_sans c.acme.challenge,
  ips c.cert.ip_sans c.acme.challenge,
  kept c.cert.ip_sans c.acme.challenge,
)
  where
    no_ips : (l : List Str) (ch : Str) → l ≡ [] → challenge_of l ch ≡ ch
    no_ips [] ch e = refl
    no_ips (x ∷ l) ch e = cc

    ips : (l : List Str) (ch : Str) → l ≢ [] → challenge_of l ch ≢ lit "dns-01"
    ips [] ch e = absurd (e refl)
    ips (x ∷ l) ch e = ground (arith, str_eq_iff ch (lit "dns-01"), http-ne-dns)

    kept : (l : List Str) (ch : Str) → ch ≢ lit "dns-01" → challenge_of l ch ≡ ch
    kept [] ch e = refl
    kept (x ∷ l) ch e = ground (arith, str_eq_iff ch (lit "dns-01"))
