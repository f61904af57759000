-- ===== src/Validate/Rules.antt =====
-- The rules of a configuration that internal/validate/validate.go lets through, stated without
-- the code's tables and loops.
use syscert.Base.{◌≡◌, ◌≢◌, ◌⊎◌, Bool, true, false, some, List, [], ◌∷◌, All, ℕ}
use syscert.Base.Int.{pos}
use syscert.Go.Strings.{Str, lit, contains, OneOf, parse_octal}
use syscert.Go.Filepath.{is_abs, ext}
use syscert.Go.Net.{Ip}
use syscert.Config.{Config, DistributeTarget, is_public_ca}
use syscert.Validate.{Host, is_publicly_routable, world_readable}

-- An address entry that the CA could issue for.
abbrev pub IpFits : Host → Bool → Str → Type 0
IpFits h public raw =
    (ip : Ip) × (h.parse_ip raw ≡ some ip) × (public ≡ true → is_publicly_routable ip ≡ true)

-- Known tokens, none of them twice nor among those seen before.
abbrev pub TokensFit : List Str → List Str → Type 0
TokensFit seen [] = Unit
TokensFit seen (tok ∷ toks) =
    OneOf tok (lit "cert" ∷ lit "chain" ∷ lit "root" ∷ lit "key" ∷ [])
    × (contains seen tok ≡ false)
    × TokensFit (tok ∷ seen) toks

-- No world-readable mode on a file that holds the private key.
pub record TargetFits (d : DistributeTarget) : Type 0 where
  pub artifact :
      OneOf d.artifact
        (lit "cert" ∷ lit "privkey" ∷ lit "chain" ∷ lit "fullchain" ∷ lit "bundle" ∷ [])
  pub mode :
      OneOf d.artifact (lit "privkey" ∷ lit "bundle" ∷ [])
      → d.mode ≢ []
      → world_readable d.mode ≡ false

abbrev pub OutputFits : Str → Str → Type 0
OutputFits suffix p = (p ≡ []) ⊎ ((is_abs p ≡ true) × (ext p ≡ suffix))

-- The rules of the configuration, each stated without the code's tables and loops.
pub record IsAccepted (h : Host) (c : Config) : Type 0 where
  pub ca : OneOf c.acme.ca (lit "letsencrypt" ∷ lit "custom" ∷ [])
  pub email : c.acme.email ≢ []
  pub directory_url : c.acme.ca ≢ lit "letsencrypt" → c.acme.directory_url ≢ []
  pub ca_bundle : (c.acme.ca_bundle ≡ []) ⊎ (h.stat_ok c.acme.ca_bundle ≡ true)
  pub propagation_check :
      OneOf c.acme.dns.propagation_check ([] ∷ lit "all" ∷ lit "authoritative" ∷ lit "off" ∷ [])
  pub format : OneOf c.logging.format ([] ∷ lit "text" ∷ lit "json" ∷ [])
  pub archive_keep : (n : ℕ) × (c.store.archive_keep ≡ pos n)
  pub dir_mode : (c.store.dir_mode ≡ []) ⊎ ((m : ℕ) × (parse_octal c.store.dir_mode ≡ some m))
  pub challenge : OneOf c.acme.challenge (lit "dns-01" ∷ lit "http-01" ∷ lit "tls-alpn-01" ∷ [])
  pub key_type :
      OneOf c.cert.key_type (lit "ec256" ∷ lit "ec384" ∷ lit "rsa2048" ∷ lit "rsa4096" ∷ [])
  pub ip_sans : All (IpFits h (is_public_ca c.acme.ca)) c.cert.ip_sans
  pub order : TokensFit [] c.bundle.order
  pub distribute : All TargetFits c.distribute
  pub metrics_file : OutputFits (lit ".prom") c.observe.metrics_file
  pub ansible_facts_file : OutputFits (lit ".fact") c.observe.ansible_facts_file
