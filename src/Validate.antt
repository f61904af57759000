-- ===== src/Validate.antt =====
-- internal/validate/validate.go: the fail-fast configuration checks. What they ask of the host,
-- `os.Stat` of a path and `net.ParseIP`, is a parameter.
pub mod Rules
mod Parts
mod Loops
mod Fields
pub mod Accepted
use Prim.Native.String.{String}
use syscert.Base.{
  ℕ, ◌+◌, ◌%◌, ◌/◌, Bool, true, false, not, ◌&&◌, ◌||◌, Option, none, some, List, [], ◌∷◌, ◌++◌,
  ◌==◌, if◌then◌else◌,
}
use syscert.Base.Int.{ℤ, pos, negsuc}
use syscert.Go.Strings.{Str, lit, is_empty, str_eq, contains, parse_octal, itoa}
use syscert.Go.Filepath.{is_abs, ext}
use syscert.Go.Net.{Ip, is_private, is_loopback, is_link_local_unicast, is_unspecified}
use syscert.Config.{Config, DistributeTarget, is_public_ca, is_internal_ca}

-- A message is its format with the values put in.
pub record Problem : Type 0 where
  pub field : Str
  pub message : String
  pub values : List Str

-- What the checks ask of the host.
pub record Host : Type 0 where
  pub stat_ok : Str → Bool
  pub parse_ip : Str → Option Ip

unfoldable pub valid_cas : List Str
valid_cas = lit "letsencrypt" ∷ lit "custom" ∷ []

unfoldable pub valid_challenges : List Str
valid_challenges = lit "dns-01" ∷ lit "http-01" ∷ lit "tls-alpn-01" ∷ []

unfoldable pub valid_key_types : List Str
valid_key_types = lit "ec256" ∷ lit "ec384" ∷ lit "rsa2048" ∷ lit "rsa4096" ∷ []

unfoldable pub valid_artifacts : List Str
valid_artifacts = lit "cert" ∷ lit "privkey" ∷ lit "chain" ∷ lit "fullchain" ∷ lit "bundle" ∷ []

unfoldable pub key_bearing : List Str
key_bearing = lit "privkey" ∷ lit "bundle" ∷ []

unfoldable pub valid_bundle_tok : List Str
valid_bundle_tok = lit "cert" ∷ lit "chain" ∷ lit "root" ∷ lit "key" ∷ []

unfoldable pub valid_log_formats : List Str
valid_log_formats = [] ∷ lit "text" ∷ lit "json" ∷ []

unfoldable pub valid_propagation_checks : List Str
valid_propagation_checks = [] ∷ lit "all" ∷ lit "authoritative" ∷ lit "off" ∷ []

-- `if bad { add(field, message) }`
abbrev pub problem_if : Bool → Str → String → List Str → List Problem
problem_if bad f m vs = if bad then record { field = f; message = m; values = vs } ∷ [] else []

unfoldable pub is_publicly_routable : Ip → Bool
is_publicly_routable ip =
    not (is_private ip || is_loopback ip || is_link_local_unicast ip || is_unspecified ip)

-- v & 0o004 != 0
unfoldable pub world_readable : Str → Bool
world_readable mode = elim (parse_octal mode) [ none ↦ false | some v ↦ not (v / 4 % 2 == 0) ]

unfoldable pub ca_problems : Config → List Problem
unfolding valid_cas
ca_problems cfg =
    if is_empty cfg.acme.ca
    then problem_if true (lit "acme.ca") "a CA must be set (letsencrypt | custom)" []
    else problem_if (not (contains valid_cas cfg.acme.ca)) (lit "acme.ca")
        "unknown ca %q (letsencrypt | custom — use \"custom\" for Vault, step-ca, or any internal ACME server)"
        (cfg.acme.ca ∷ [])

unfoldable pub acme_problems : Host → Config → List Problem
unfolding ca_problems valid_propagation_checks
acme_problems h cfg =
    ca_problems cfg
    ++ (problem_if (is_empty cfg.acme.email) (lit "acme.email") "an ACME account email is required"
          []
        ++ (problem_if (is_internal_ca cfg.acme.ca && is_empty cfg.acme.directory_url)
              (lit "acme.directory_url") "ca=%q requires acme.directory_url" (cfg.acme.ca ∷ [])
            ++ (problem_if (not (is_empty cfg.acme.ca_bundle) && not (h.stat_ok cfg.acme.ca_bundle))
                  (lit "acme.ca_bundle") "cannot read ca_bundle file %q: %v"
                  (cfg.acme.ca_bundle ∷ [])
                ++ problem_if
                    (not (contains valid_propagation_checks cfg.acme.dns.propagation_check))
                    (lit "acme.dns.propagation_check")
                    "unknown propagation_check %q (all|authoritative|off)"
                    (cfg.acme.dns.propagation_check ∷ []))))

abbrev pub is_negative : ℤ → Bool
is_negative (pos n) = false
is_negative (negsuc n) = true

abbrev pub is_none {ℓ} : {A : Type ℓ} → Option A → Bool
is_none none = true
is_none (some a) = false

unfoldable pub store_problems : Config → List Problem
unfolding valid_log_formats
store_problems cfg =
    problem_if (not (contains valid_log_formats cfg.logging.format)) (lit "logging.format")
      "unknown format %q (text|json)" (cfg.logging.format ∷ [])
    ++ (problem_if (is_negative cfg.store.archive_keep) (lit "store.archive_keep")
          "must be 0 or greater" []
        ++ problem_if
            (not (is_empty cfg.store.dir_mode) && is_none (parse_octal cfg.store.dir_mode))
            (lit "store.dir_mode") "not a valid octal mode: %q" (cfg.store.dir_mode ∷ []))

unfoldable pub challenge_problems : Config → List Problem
unfolding valid_challenges
challenge_problems cfg =
    if str_eq cfg.acme.challenge (lit "dns-persist-01")
    then problem_if true (lit "acme.challenge")
        "challenge \"dns-persist-01\" is recognised but not yet implemented — it is blocked on upstream support (lego ships no unattended persistent-DNS provider, and CA support is still rolling out); use dns-01, http-01, or tls-alpn-01 (see the roadmap)"
        []
    else problem_if (not (contains valid_challenges cfg.acme.challenge)) (lit "acme.challenge")
        "unknown challenge %q" (cfg.acme.challenge ∷ [])

unfoldable pub key_type_problems : Config → List Problem
unfolding valid_key_types
key_type_problems cfg =
    problem_if (not (contains valid_key_types cfg.cert.key_type)) (lit "cert.key_type")
      "unknown key_type %q (ec256|ec384|rsa2048|rsa4096)" (cfg.cert.key_type ∷ [])

-- One entry of `ip_sans`, after `net.ParseIP`.
unfoldable pub ip_problem : Bool → Str → Option Ip → List Problem
ip_problem public raw none =
    problem_if true (lit "cert.ip_sans") "%q is not a valid IP address" (raw ∷ [])
ip_problem public raw (some ip) =
    problem_if (public && not (is_publicly_routable ip)) (lit "cert.ip_sans")
      "%q is a private/non-routable IP; public CAs cannot issue for it — use an internal CA"
      (raw ∷ [])

unfoldable pub ip_problems : Host → Bool → List Str → List Problem
unfolding ip_problem
ip_problems h public [] = []
ip_problems h public (raw ∷ raws) =
    ip_problem public raw (h.parse_ip raw) ++ ip_problems h public raws

-- The loop over `bundle.order`; `seen` holds the earlier tokens.
unfoldable pub bundle_problems : List Str → List Str → List Problem
unfolding valid_bundle_tok
bundle_problems seen [] = []
bundle_problems seen (tok ∷ toks) =
    problem_if (not (contains valid_bundle_tok tok)) (lit "bundle.order")
      "unknown component %q (cert|chain|root|key)" (tok ∷ [])
    ++ (problem_if (contains seen tok) (lit "bundle.order") "duplicate component %q" (tok ∷ [])
        ++ bundle_problems (tok ∷ seen) toks)

-- fmt.Sprintf("distribute[%d]", i)
unfoldable pub where_target : ℕ → Str
where_target i = lit "distribute[" ++ (itoa i ++ lit "]")

unfoldable pub target_problems : ℕ → DistributeTarget → List Problem
unfolding valid_artifacts key_bearing
target_problems i d =
    problem_if (not (contains valid_artifacts d.artifact)) (where_target i ++ lit ".artifact")
      "unknown artifact %q (cert|privkey|chain|fullchain|bundle)" (d.artifact ∷ [])
    ++ problem_if
        (contains key_bearing d.artifact && (not (is_empty d.mode) && world_readable d.mode))
        (where_target i ++ lit ".mode")
        "artifact %q holds the private key; mode %q is world-readable" (d.artifact ∷ d.mode ∷ [])

unfoldable pub targets_problems : ℕ → List DistributeTarget → List Problem
targets_problems i [] = []
targets_problems i (d ∷ ds) = target_problems i d ++ targets_problems (i + 1) ds

-- `if p != "" { … }` for one output file and the suffix that its reader wants.
unfoldable pub output_problems : Str → Str → String → Str → List Problem
output_problems name suffix why p =
    if is_empty p
    then []
    else problem_if (not (is_abs p)) name "%q must be an absolute path" (p ∷ [])
      ++ problem_if (not (str_eq (ext p) suffix)) name why (p ∷ [])

unfoldable pub validate : Host → Config → List Problem
unfolding acme_problems store_problems challenge_problems key_type_problems output_problems
validate h cfg =
    acme_problems h cfg
    ++ (store_problems cfg
        ++ (challenge_problems cfg
            ++ (key_type_problems cfg
                ++ (ip_problems h (is_public_ca cfg.acme.ca) cfg.cert.ip_sans
                    ++ (bundle_problems [] cfg.bundle.order
                        ++ (targets_problems 0 cfg.distribute
                            ++ (output_problems (lit "observe.metrics_file") (lit ".prom")
                                  "%q must end in .prom — node_exporter's textfile collector ignores every other suffix"
                                  cfg.observe.metrics_file
                                ++ output_problems (lit "observe.ansible_facts_file") (lit ".fact")
                                    "%q must end in .fact — Ansible only reads *.fact from facts.d"
                                    cfg.observe.ansible_facts_file)))))))
