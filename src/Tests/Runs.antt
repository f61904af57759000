-- ===== src/Tests/Runs.antt =====
-- Examples of whole runs: the ensure cycle, `void`, the beginning of a command, the loop.
use syscert.Base.{
  ℕ, suc, ◌≡◌, ◌≢◌, ◌↔◌, ◌⊎◌, refl, true, false, Option, none, some, List, [], ◌∷◌, if◌then◌else◌,
}
use syscert.Base.Int.{pos}
use syscert.Go.Strings.{Str, lit, is_empty}
use syscert.Os.{file, Sys, Error, text, ok, err}
use syscert.Config.{Config}
use syscert.Store.{Artifact}
use syscert.Acme.{
  Obtainer, Params, Library, params, revoke_cert, account_signer, connect, new_account,
}
use syscert.Acme.Account.{new_account_reuses}
use syscert.Distribute.{run}
use syscert.Interval.{
  Round, cycles, iterate, rounds_run, any_cancelled, run_interval_loop, run_interval_loop_cases,
}
use syscert.Command.{Runtime, Args, Program, proceed, provision, confirm}
use syscert.Command.Void.{void_read}
use syscert.Command.Cycle.{ensure_cycle, IsReady, ensure_cycle_offline, ensure_cycle-ok_iff}
use syscert.Command.Exit.{void_read-zero_iff, proceed_accepted}
use syscert.Tests.{owned, running, plain_config, parsers}

-- A CA that issues one certificate, and one that refuses everything.
abbrev pub issuing : Obtainer
issuing = record {
  obtain = λ p s. (
    ok (record {
      identifiers = p.identifiers;
      certificate = lit "LI";
      private_key = lit "K";
      issuer_certificate = lit "I";
    }),
    s,
  );
  revoke = λ _ _ s. (ok tt, s);
}

abbrev refused : Obtainer
refused = record {
  obtain = λ _ s. (err (text "refused" []), s);
  revoke = λ _ _ s. (err (text "refused" []), s);
}

abbrev pub machine : Runtime
machine = record {
  decode_file = λ _ s. (ok plain_config, s);
  checks = record { stat_ok = λ _. false; parse_ip = λ _. none };
  hostname = ok (lit "h.example");
  parsers = parsers;
  decoder = λ s. elim s [ [] ↦ none | c ∷ rest ↦ some (c ∷ [], rest) ];
  obtainer = issuing;
  error_text = λ _. [];
  scan = λ _. ([], none);
  settable = λ _. true;
  environ = [];
  clock = λ _. pos 50;
  stamp = λ _. lit "20250101T000000Z";
  version = lit "1";
  marshal = λ _. ok [];
}

abbrev pub forced : Args
forced = record {
  parsed = true;
  env_files = [];
  config_path = lit "/c";
  staging = false;
  force = true;
  interval = [];
}

ensure_cycle_offline_example :
    ensure_cycle
      (record machine { obtainer = refused })
      plain_config
      (lit "h.example")
      false
      running
    ≡ ensure_cycle machine plain_config (lit "h.example") false running
unfolding syscert.Command.Cycle.need syscert.Store.Disk.read_current_cert syscert.Os.Calls.read_file
    syscert.Os.lookup syscert.Os.path_eq syscert.Go.Filepath.resolve syscert.Go.Strings.split lit
    syscert.Go.Strings.str_eq syscert.Renewal.due syscert.Renewal.inspect
    syscert.Renewal.inspect_cert syscert.Renewal.window_of syscert.Base.Int.◌-ℤ◌
    syscert.Base.Int.quot syscert.Renewal.sub_time
ensure_cycle_offline_example =
    ensure_cycle_offline machine refused plain_config (lit "h.example") false running refl

ensure_cycle-ok_example :
    ((ensure_cycle machine plain_config (lit "h.example") false running).0 ≡ none) ↔ (
      (t : Sys) × IsReady machine plain_config (lit "h.example") false running t
      × ((run plain_config.store.path plain_config.distribute t).0 ≡ ok tt))
ensure_cycle-ok_example = ensure_cycle-ok_iff machine plain_config (lit "h.example") false running

void_read-zero_example :
    ((void_read machine forced [] plain_config (lit "h.example") (ok (lit "C"), running)).0 ≡ 0) ↔ (
      (confirm [] true ≡ false)
      ⊎ ((confirm [] true ≡ true)
          × (s' : Sys) × (revoke_cert issuing plain_config (lit "C") false [] running ≡ (ok tt, s'))
          × (t : Sys) × (arts : List Artifact) × (provision machine plain_config
                (lit "h.example")
                false
                s'
              ≡ (ok arts, t))
          × ((run plain_config.store.path plain_config.distribute t).0 ≡ ok tt)))
unfolding syscert.Command.eab_hmac
void_read-zero_example =
    void_read-zero_iff machine forced [] plain_config (lit "h.example") (lit "C") running

abbrev counting : Runtime → Config → Str → Program
counting w cfg subject s = (0, s)

-- The same on the configs with an email.
abbrev with_email : Runtime → Config → Str → Program
with_email w cfg subject s = (if is_empty cfg.acme.email then 9 else 0, s)

alike_given_email :
    (email : Str) (s : Sys)
    → email ≢ []
    → ◌≡◌ {A = ℕ × Sys} (0, s) (if is_empty email then 9 else 0, s)
alike_given_email [] s h = absurd (h refl)
alike_given_email (c ∷ email) s h = refl

proceed_accepted_example :
    proceed machine forced counting running ≡ proceed machine forced with_email running
proceed_accepted_example =
    proceed_accepted machine forced counting with_email
      (λ env cfg subject s good. alike_given_email cfg.acme.email s good.email) running

abbrev failing : ℕ → Option Error × ℕ
failing n = (some (text "failed" []), suc n)

abbrev two_rounds : List Round
two_rounds =
    record { after_cycle = false; during_sleep = false }
    ∷ record { after_cycle = true; during_sleep = false }
    ∷ []

run_interval_loop_example :
    (cycles (run_interval_loop failing two_rounds 0).0 ≡ rounds_run two_rounds)
    × ((run_interval_loop failing two_rounds 0).1 ≡ iterate failing (rounds_run two_rounds) 0)
    × ((run_interval_loop failing two_rounds 0).2
        ≡ (if any_cancelled two_rounds then some 0 else none))
run_interval_loop_example = run_interval_loop_cases failing two_rounds 0

-- A library whose keys are texts; the CA knows every key.
abbrev pub knowing : Library
knowing = record {
  Key = Str;
  digest_name = λ url. url;
  decode_key = λ s. some s;
  encode_key = λ s. s;
  fresh_key = λ s. (ok (lit "K"), s);
  resolve_account = λ _ s. (ok (some (lit "R")), s);
  append_certs = λ _. true;
  new_client = λ _ _ s. (ok tt, s);
  register = λ _ s. (err (text "registered" []), s);
  register_eab = λ _ _ s. (err (text "registered" []), s);
}

abbrev known_host : Sys
known_host = record running {
  fs = ((lit "a" ∷ lit "u" ∷ lit "account.key" ∷ []), file (lit "K") (owned 0o600)) ∷ [];
}

abbrev order : Params
order = record (params plain_config (lit "h.example") false (some (lit "a" ∷ [])) []) {
  directory_url = lit "u";
}

abbrev signed_host : Sys
signed_host = (account_signer knowing order known_host).1

new_account_reuses_example :
    new_account knowing (record order { eab_kid = lit "kid"; eab_hmac = [] }) known_host
    ≡ (ok (lit "R"), signed_host)
unfolding account_signer connect lit params syscert.Os.◌>>=◌ syscert.Os.wrapping
    syscert.Os.Calls.mkdir_all syscert.Os.lookup syscert.Os.path_eq syscert.Go.Strings.str_eq
    syscert.Os.Calls.read_file syscert.Os.insert
new_account_reuses_example =
    new_account_reuses knowing order (lit "kid") [] (lit "R") (lit "K") known_host signed_host
      signed_host signed_host refl refl refl
