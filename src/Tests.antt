-- ===== src/Tests.antt =====
-- Data that the examples share: a host, a file system with a store, targets and configs.
pub mod Files
pub mod Settings
pub mod Runs
pub mod Variables
pub mod Teardown
pub mod Rollouts
pub mod Guards
pub mod Progress
use syscert.Base.{ℕ, false, none, some, [], ◌∷◌}
use syscert.Base.Int.{pos}
use syscert.Go.Strings.{lit}
use syscert.Os.{Host, Sys, Fs, file, directory, Meta, eacces}
use syscert.Renewal.{Certificate, ecdsa, Parsers}
use syscert.Config.{Config, DistributeTarget}

abbrev pub service_host : Host
service_host = record {
  euid = 998;
  egid = 998;
  user_of = λ _. some 0;
  group_of = λ _. some 33;
  name_of = λ _. some (lit "syscert");
  selinux = false;
}

abbrev pub owned : ℕ → Meta
owned mode = record { mode = mode; uid = 998; gid = 998; label = [] }

abbrev pub stored : Fs
stored =
    ((lit "s" ∷ []), directory (owned 0o700))
    ∷ ((lit "s" ∷ lit "cert.pem" ∷ []), file (lit "C") (owned 0o644))
    ∷ ((lit "t" ∷ []), directory (owned 0o755))
    ∷ []

abbrev pub running : Sys
running = record { host = service_host; fs = stored; faults = []; nonce = 7; seen = [] }

-- The same host, where the second call fails.
abbrev pub refusing : Sys
refusing = record running { faults = none ∷ some (record { errno = eacces; written = 0 }) ∷ [] }

abbrev pub cert_target : DistributeTarget
cert_target = record {
  artifact = lit "cert";
  path = lit "/t/x.pem";
  owner = [];
  group = [];
  mode = [];
  selinux_context = [];
}

abbrev pub key_target : DistributeTarget
key_target = record cert_target { artifact = lit "privkey"; mode = lit "640" }

abbrev pub plain_config : Config
plain_config = record {
  cert = record {
    hostname = lit "h.example";
    sans = [];
    ip_sans = [];
    key_type = lit "ec256";
    reuse_key = false;
  };
  acme = record {
    ca = lit "letsencrypt";
    directory_url = [];
    email = lit "a@b";
    challenge = lit "dns-01";
    profile = [];
    ca_bundle = [];
    dns = record { provider = []; propagation_check = [] };
    eab = record { kid = [] };
  };
  store = record { path = lit "/s"; group = []; dir_mode = lit "0700"; archive_keep = pos 0 };
  bundle = record { order = lit "cert" ∷ [] };
  distribute = cert_target ∷ [];
  renewal = record { renew_before = [] };
  logging = record { level = lit "info"; format = [] };
  observe = record { metrics_file = lit "/m/a.prom"; ansible_facts_file = [] };
}

-- A certificate that lives for 90 ticks, and libraries that know it alone.
abbrev pub leaf : Certificate
leaf = record {
  not_before = pos 10;
  not_after = pos 100;
  issuer = lit "CA";
  serial = lit "1";
  public_key = ecdsa (lit "P-256");
}

abbrev pub parsers : Parsers
parsers = record {
  decode = λ s. some s;
  parse_certificate = λ _. some leaf;
  parse_duration = λ _. some (pos 1);
}
