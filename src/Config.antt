-- ===== src/Config.antt =====
-- internal/config/config.go: the configuration as records, its defaults, and the derived settings.
pub mod Defaults
use syscert.Base.{ℕ, Bool, true, false, not, ◌&&◌, List, [], ◌∷◌, none, some, if◌then◌else◌}
use syscert.Base.Int.{ℤ}
use syscert.Go.Strings.{Str, lit, str_eq, is_empty, parse_octal}

pub record CertConfig : Type 0 where
  pub hostname : Str
  pub sans : List Str
  pub ip_sans : List Str
  pub key_type : Str
  pub reuse_key : Bool

pub record AcmeEabConfig : Type 0 where
  pub kid : Str

pub record AcmeDnsConfig : Type 0 where
  pub provider : Str
  pub propagation_check : Str

pub record AcmeConfig : Type 0 where
  pub ca : Str
  pub directory_url : Str
  pub email : Str
  pub challenge : Str
  pub profile : Str
  pub ca_bundle : Str
  pub dns : AcmeDnsConfig
  pub eab : AcmeEabConfig

pub record StoreConfig : Type 0 where
  pub path : Str
  pub group : Str
  pub dir_mode : Str
  pub archive_keep : ℤ

pub record BundleConfig : Type 0 where
  pub order : List Str

pub record DistributeTarget : Type 0 where
  pub artifact : Str
  pub path : Str
  pub owner : Str
  pub group : Str
  pub mode : Str
  pub selinux_context : Str

pub record RenewalConfig : Type 0 where
  pub renew_before : Str

pub record ObserveConfig : Type 0 where
  pub metrics_file : Str
  pub ansible_facts_file : Str

pub record LoggingConfig : Type 0 where
  pub level : Str
  pub format : Str

pub record Config : Type 0 where
  pub cert : CertConfig
  pub acme : AcmeConfig
  pub store : StoreConfig
  pub bundle : BundleConfig
  pub distribute : List DistributeTarget
  pub renewal : RenewalConfig
  pub logging : LoggingConfig
  pub observe : ObserveConfig

unfoldable pub parsed_dir_mode : StoreConfig → ℕ
parsed_dir_mode s = elim (parse_octal s.dir_mode) [ some v ↦ v | none ↦ 0o700 ]

unfoldable pub is_public_ca : Str → Bool
is_public_ca ca = str_eq ca (lit "letsencrypt")

unfoldable pub is_internal_ca : Str → Bool
unfolding is_public_ca
is_internal_ca ca = not (is_empty ca) && not (is_public_ca ca)

abbrev pub has_any : List Str → Bool
has_any [] = false
has_any (_ ∷ _) = true

unfoldable pub effective_challenge : Config → Str
effective_challenge c =
    if has_any c.cert.ip_sans && str_eq c.acme.challenge (lit "dns-01")
    then lit "http-01"
    else c.acme.challenge

-- `if s == "" { s = d }`
unfoldable pub default_to : Str → Str → Str
default_to d s = if is_empty s then d else s

unfoldable pub default_order : List Str → List Str
default_order order =
    if not (has_any order) then lit "cert" ∷ lit "chain" ∷ lit "root" ∷ lit "key" ∷ [] else order

unfoldable pub apply_defaults : Config → Config
unfolding default_to default_order
apply_defaults c = record c {
  cert = record (c.cert) { key_type = default_to (lit "ec256") c.cert.key_type };
  acme = record (c.acme) { challenge = default_to (lit "dns-01") c.acme.challenge };
  store = record (c.store) {
    path = default_to (lit "/var/lib/syscert") c.store.path;
    dir_mode = default_to (lit "0700") c.store.dir_mode;
  };
  bundle = record { order = default_order c.bundle.order };
  logging = record (c.logging) { level = default_to (lit "info") c.logging.level };
}
