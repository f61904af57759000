-- ===== src/Acme/Lego/Solvers.antt =====
-- What an accepted config asks of the ACME library of internal/acme/lego.go.
use syscert.Base.{
  ◌≡◌, ◌≢◌, ◌⊎◌, inl, inr, refl, sym, ap, ◌∙◌, not, ◌&&◌, List, [], ◌∷◌, Bool, true, false, Option,
  if◌then◌else◌,
}
use syscert.Go.Strings.{Str, lit, str_eq, str_eq_iff, OneOf, is_empty}
use syscert.Go.Filepath.{FilePath}
use syscert.Config.{Config, effective_challenge, has_any}
use syscert.Config.Defaults.{effective_challenge_cases}
use syscert.Validate.{Host}
use syscert.Validate.Rules.{IsAccepted}
use syscert.Acme.{Params, params, directory_url, le_staging_url, le_production_url}
use syscert.Acme.Lego.{Lego, set_solver, set_dns_solver}

directory_url-ne-nil :
    (c : Config) (staging : Bool)
    → (c.acme.ca ≢ lit "letsencrypt" → c.acme.directory_url ≢ [])
    → directory_url c staging ≢ []
unfolding directory_url lit
directory_url-ne-nil c staging h =
    go c.acme.directory_url (str_eq c.acme.ca (lit "letsencrypt")) staging
      (λ n e. h (λ q. cc (sym n ∙ (str_eq_iff c.acme.ca (lit "letsencrypt")).1 q)) e)
  where
    go :
        (url : Str) (public staging : Bool)
        → (public ≡ false → url ≢ [])
        → (if not (is_empty url)
            then url
            else if public
            then (if staging then le_staging_url else le_production_url)
            else [])
          ≢ []
    go (b ∷ url) public staging h e = cc e
    go [] true true h e = cc e
    go [] true false h e = cc e
    go [] false staging h e = h refl refl

solver_cases :
    (g : Lego) (p : Params)
    → OneOf p.challenge (lit "dns-01" ∷ lit "http-01" ∷ lit "tls-alpn-01" ∷ [])
    → ((p.challenge ≡ lit "dns-01") × (set_solver g p ≡ set_dns_solver g p))
      ⊎ (set_solver g p ≡ g.set_http01 (lit "80"))
      ⊎ (set_solver g p ≡ g.set_tls_alpn01 (lit "443"))
unfolding set_solver lit str_eq
solver_cases g p (inl e) = inl (e, rw (ap (λ c. str_eq c (lit "dns-01")) e))
solver_cases g p (inr (inl e)) =
    inr (inl (rw (ap (λ c. str_eq c (lit "dns-01")) e, ap (λ c. str_eq c (lit "http-01")) e)))
solver_cases g p (inr (inr e)) = inr (
    inr (
      rw (
        ap (λ c. str_eq c (lit "dns-01")) e,
        ap (λ c. str_eq c (lit "http-01")) e,
        ap (λ c. str_eq c (lit "tls-alpn-01")) e,
      )))

effective-OneOf :
    (c : Config)
    → OneOf c.acme.challenge (lit "dns-01" ∷ lit "http-01" ∷ lit "tls-alpn-01" ∷ [])
    → OneOf (effective_challenge c) (lit "dns-01" ∷ lit "http-01" ∷ lit "tls-alpn-01" ∷ [])
unfolding effective_challenge
effective-OneOf c h = go (has_any c.cert.ip_sans && str_eq c.acme.challenge (lit "dns-01"))
  where
    go :
        (b : Bool)
        → OneOf
            (if b then lit "http-01" else c.acme.challenge)
            (lit "dns-01" ∷ lit "http-01" ∷ lit "tls-alpn-01" ∷ [])
    go true = inr (inl refl)
    go false = h

-- For an accepted config there is a directory to ask, and the solver is that of one of the three
-- challenges: never the error for an unsupported one, and never that of DNS if the certificate has
-- IP addresses.
pub set_solver-IsAccepted :
    (g : Lego) (h : Host) (c : Config) (subject : Str) (staging : Bool) (dir : Option FilePath)
    (hmac : Str)
    → IsAccepted h c
    → let p = params c subject staging dir hmac in
      (p.directory_url ≢ [])
      × (((c.cert.ip_sans ≡ []) × (set_solver g p ≡ set_dns_solver g p))
          ⊎ (set_solver g p ≡ g.set_http01 (lit "80"))
          ⊎ (set_solver g p ≡ g.set_tls_alpn01 (lit "443")))
unfolding params
set_solver-IsAccepted g h c subject staging dir hmac good = (
  directory_url-ne-nil c staging good.directory_url,
  narrowed c.cert.ip_sans ((effective_challenge_cases c).1)
      (solver_cases g (params c subject staging dir hmac) (effective-OneOf c good.challenge)),
)
  where
    narrowed :
        {A B C : Type 0} (ips : List Str)
        → (ips ≢ [] → effective_challenge c ≢ lit "dns-01")
        → ((effective_challenge c ≡ lit "dns-01") × A) ⊎ B ⊎ C
        → ((ips ≡ []) × A) ⊎ B ⊎ C
    narrowed [] h (inl (e, a)) = inl (refl, a)
    narrowed (x ∷ ips) h (inl (e, a)) = absurd (h (λ q. cc q) e)
    narrowed ips h (inr r) = inr r
