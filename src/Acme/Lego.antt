-- ===== src/Acme/Lego.antt =====
-- internal/acme/lego.go: the Obtainer over the ACME library, with its challenge solvers.
pub mod Solvers
use syscert.Base.{List, [], ◌∷◌, if◌then◌else◌}
use syscert.Go.Strings.{Str, lit, str_eq, is_empty}
use syscert.Os.{text, Result, Exec, raise, ◌>>=◌, ◌>>◌, wrapping}
use syscert.Acme.{Params, Obtained, Obtainer, Library, new_account}

pub data ChallengeOption : Type 0 where
  disable_recursive disable_authoritative : ChallengeOption

unfoldable pub dns_propagation_opts : Str → List ChallengeOption
dns_propagation_opts mode =
    if str_eq mode (lit "authoritative")
    then disable_recursive ∷ []
    else if str_eq mode (lit "off")
    then disable_recursive ∷ disable_authoritative ∷ []
    else []

-- The calls of the ACME library that order a certificate. Its client is one for each run.
pub record Lego : Type 1 where
  pub library : Library
  pub to_key_type : Str → Result Str
  pub dns_provider : Str → Exec Str
  pub set_dns01 : Str → List ChallengeOption → Exec (Unit {0})
  pub set_http01 : Str → Exec (Unit {0})
  pub set_tls_alpn01 : Str → Exec (Unit {0})
  pub order : List Str → Str → Str → Exec Obtained
  pub revoke : Str → Exec (Unit {0})

module _ (g : Lego) where
  unfoldable pub set_dns_solver : Params → Exec (Unit {0})
  unfolding dns_propagation_opts
  set_dns_solver p = do
    provider ← wrapping "dns provider %q: %w" (p.dns_provider ∷ []) (g.dns_provider p.dns_provider)
    g.set_dns01 provider (dns_propagation_opts p.dns_propagation_check)

  unfoldable pub set_solver : Params → Exec (Unit {0})
  unfolding set_dns_solver
  set_solver p =
      if str_eq p.challenge (lit "dns-01")
      then set_dns_solver p
      else if str_eq p.challenge (lit "http-01")
      then g.set_http01 (lit "80")
      else if str_eq p.challenge (lit "tls-alpn-01")
      then g.set_tls_alpn01 (lit "443")
      else raise (text "unsupported challenge %q" (p.challenge ∷ []))

  abbrev lift : {A : Type 0} → Result A → Exec A
  lift r s = (r, s)

  unfoldable pub lego_obtain : Params → Exec Obtained
  unfolding set_solver
  lego_obtain p =
      if is_empty p.directory_url
      then raise (text "no ACME directory URL resolved (set acme.directory_url)" [])
      else do
        kt ← lift (g.to_key_type p.key_type)
        new_account g.library p
        set_solver p
        wrapping "obtain certificate: %w" [] (g.order p.identifiers kt p.profile)

  unfoldable pub lego_revoke : Params → Str → Exec (Unit {0})
  lego_revoke p cert_pem =
      if is_empty p.directory_url
      then raise (text "no ACME directory URL resolved (set acme.directory_url)" [])
      else do new_account g.library p; wrapping "revoke certificate: %w" [] (g.revoke cert_pem)

  unfoldable pub lego_obtainer : Obtainer
  unfolding lego_obtain lego_revoke
  lego_obtainer = record { obtain = lego_obtain; revoke = lego_revoke }
