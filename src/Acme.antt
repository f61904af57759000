-- ===== src/Acme.antt =====
-- internal/acme/acme.go, lego.go and account.go: what is asked of the ACME library. The library
-- itself, the keys and the digest are parameters (`Library`).
pub mod Account
pub mod Key
pub mod Lego
use syscert.Base.{
  Bool, true, false, not, ◌||◌, Option, none, some, List, [], ◌∷◌, ◌++◌, if◌then◌else◌,
}
use syscert.Go.Strings.{Str, lit, str_eq, is_empty, contains}
use syscert.Go.Filepath.{FilePath, resolve, in_dir}
use syscert.Os.{text, Result, ok, err, Exec, pure, raise, ◌>>=◌, ◌>>◌, wrapping}
use syscert.Os.Calls.{read_file, mkdir_all, write_file}
use syscert.Config.{Config, effective_challenge}

pub record Params : Type 0 where
  pub directory_url : Str
  pub email : Str
  pub key_type : Str
  pub challenge : Str
  pub dns_provider : Str
  pub dns_propagation_check : Str
  pub profile : Str
  pub ca_bundle : Str
  pub eab_kid : Str
  pub eab_hmac : Str
  pub account_dir : Option FilePath
  pub identifiers : List Str

pub record Obtained : Type 0 where
  pub identifiers : List Str
  pub certificate : Str
  pub private_key : Str
  pub issuer_certificate : Str

abbrev pub le_production_url : Str
le_production_url = lit "https://acme-v02.api.letsencrypt.org/directory"

abbrev pub le_staging_url : Str
le_staging_url = lit "https://acme-staging-v02.api.letsencrypt.org/directory"

unfoldable pub directory_url : Config → Bool → Str
directory_url cfg staging =
    if not (is_empty cfg.acme.directory_url)
    then cfg.acme.directory_url
    else if str_eq cfg.acme.ca (lit "letsencrypt")
    then (if staging then le_staging_url else le_production_url)
    else []

-- The closure `add` of Identifiers.
unfoldable pub add_id : List Str → Str → List Str
add_id out id = if is_empty id || contains out id then out else out ++ (id ∷ [])

unfoldable pub add_ids : List Str → List Str → List Str
unfolding add_id
add_ids out [] = out
add_ids out (id ∷ ids) = add_ids (add_id out id) ids

unfoldable pub identifiers : Config → Str → List Str
unfolding add_ids
identifiers cfg subject = add_ids (add_ids (add_id [] subject) cfg.cert.sans) cfg.cert.ip_sans

unfoldable pub accounts_dir : Config → FilePath
accounts_dir cfg = in_dir cfg.store.path (lit "accounts")

-- `hmac` is the value of SYSCERT_EAB_HMAC.
unfoldable pub params : Config → Str → Bool → Option FilePath → Str → Params
unfolding identifiers directory_url
params cfg subject staging account_dir hmac = record {
  directory_url = directory_url cfg staging;
  email = cfg.acme.email;
  key_type = cfg.cert.key_type;
  challenge = effective_challenge cfg;
  dns_provider = cfg.acme.dns.provider;
  dns_propagation_check = cfg.acme.dns.propagation_check;
  profile = cfg.acme.profile;
  ca_bundle = cfg.acme.ca_bundle;
  eab_kid = cfg.acme.eab.kid;
  eab_hmac = hmac;
  account_dir = account_dir;
  identifiers = identifiers cfg subject;
}

-- The Obtainer interface: it acts on the host, where it may keep the account.
pub record Obtainer : Type 0 where
  pub obtain : Params → Exec Obtained
  pub revoke : Params → Str → Exec (Unit {0})

unfoldable pub obtain : Obtainer → Config → Str → Bool → Str → Exec Obtained
unfolding params accounts_dir
obtain ob cfg subject staging hmac =
    ob.obtain (params cfg subject staging (some (accounts_dir cfg)) hmac)

unfoldable pub dry_run : Obtainer → Config → Str → Str → Exec Obtained
unfolding params
dry_run ob cfg subject hmac = ob.obtain (params cfg subject true none hmac)

unfoldable pub revoke_cert : Obtainer → Config → Str → Bool → Str → Exec (Unit {0})
unfolding params accounts_dir
revoke_cert ob cfg cert_pem staging hmac =
    ob.revoke (params cfg [] staging (some (accounts_dir cfg)) hmac) cert_pem

pub record EabOptions : Type 0 where
  pub kid : Str
  pub hmac : Str

-- `none` where no external account is bound.
unfoldable pub eab_options : Params → Result (Option EabOptions)
eab_options p =
    if is_empty p.eab_kid
    then ok none
    else if is_empty p.eab_hmac
    then err (
        text "acme.eab.kid is set but %s is empty (export the EAB HMAC key)"
          (lit "SYSCERT_EAB_HMAC" ∷ []))
    else ok (some (record { kid = p.eab_kid; hmac = p.eab_hmac }))

-- The library's answers: a key as text, the digest of a URL as the name of its directory, and the
-- registration calls.
pub record Library : Type 1 where
  pub Key : Type 0
  pub digest_name : Str → Str
  pub decode_key : Str → Option Key
  pub encode_key : Key → Str
  pub fresh_key : Exec Key
  pub resolve_account : Key → Exec (Option Str)
  pub append_certs : Str → Bool
  pub new_client : Str → Str → Exec (Unit {0})
  pub register : Key → Exec Str
  pub register_eab : Key → EabOptions → Exec Str

module _ (l : Library) where
  unfoldable pub account_dir : FilePath → Str → FilePath
  account_dir base url = base ++ (l.digest_name url ∷ [])

  -- A key that was made just now, kept for the next run.
  unfoldable pub create_key : FilePath → Exec (l.Key × Bool)
  create_key path = do
    key ← l.fresh_key
    wrapping "write account key %s: %w" [] (write_file path (l.encode_key key) 0o600)
    pure (key, false)

  -- The rest of accountKey after the read of the file.
  unfoldable pub key_of_read : FilePath → Result Str → Exec (l.Key × Bool)
  unfolding create_key
  key_of_read path (err e) = create_key path
  key_of_read path (ok content) = elim (l.decode_key content) [
    | none ↦ raise (text "account key %s is not PEM" [])
    | some key ↦ pure (key, true)
  ]

  unfoldable pub read_key : FilePath → Exec (l.Key × Bool)
  unfolding key_of_read
  read_key path s = let (r, s') = read_file path s in key_of_read path r s'

  unfoldable pub account_key : FilePath → Str → Exec (l.Key × Bool)
  unfolding account_dir read_key
  account_key base url = do
    wrapping "create account dir: %w" [] (mkdir_all (account_dir base url) 0o700)
    read_key (account_dir base url ++ (lit "account.key" ∷ []))

  unfoldable pub account_signer : Params → Exec (l.Key × Bool)
  unfolding account_key
  account_signer p = elim p.account_dir [
    | none ↦ (do key ← l.fresh_key; pure (key, false))
    | some base ↦ account_key base p.directory_url
  ]

  unfoldable pub register_with : l.Key → Result (Option EabOptions) → Exec Str
  register_with key (err e) = raise e
  register_with key (ok none) = l.register key
  register_with key (ok (some eab)) = l.register_eab key eab

  unfoldable pub register_account : Params → l.Key → Exec Str
  unfolding register_with eab_options
  register_account p key = register_with key (eab_options p)

  -- An account that exists is resolved; only one that the CA does not know is registered.
  unfoldable pub account_for : Params → l.Key × Bool → Exec Str
  unfolding register_account
  account_for p (key, false) = register_account p key
  account_for p (key, true) = do
    found ← l.resolve_account key
    elim found [ some reg ↦ pure reg | none ↦ register_account p key ]

  unfoldable pub load_ca_bundle : Str → Exec (Unit {0})
  load_ca_bundle path = do
    content ← wrapping "read ca_bundle %s: %w" (path ∷ []) (read_file (resolve path))
    (if l.append_certs content
        then pure tt
        else raise (text "ca_bundle %s contains no usable PEM certificates" (path ∷ [])))

  -- The client that trusts the CA for its connections.
  unfoldable pub connect : Params → Exec (Unit {0})
  unfolding load_ca_bundle
  connect p = do
    (if is_empty p.ca_bundle then pure tt else load_ca_bundle p.ca_bundle)
    wrapping "acme client: %w" [] (l.new_client p.directory_url p.email)

  unfoldable pub new_account : Params → Exec Str
  unfolding account_signer connect account_for
  new_account p = do
    signer ← account_signer p
    connect p
    wrapping "register account: %w" [] (account_for p signer)
