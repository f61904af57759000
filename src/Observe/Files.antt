-- ===== src/Observe/Files.antt =====
-- cmd/syscert/observe.go: what is gathered for the state files, and their writing. The version text
-- and `json.MarshalIndent` are parameters.
use syscert.Base.{Bool, true, false, ◌&&◌, Option, none, some, List, [], ◌∷◌, ◌++◌, if◌then◌else◌}
use syscert.Base.Int.{ℤ}
use syscert.Go.Strings.{Str, lit, is_empty, itoa}
use syscert.Go.Filepath.{resolve}
use syscert.Os.{Result, ok, err, Sys, Node}
use syscert.Os.Calls.{stat}
use syscert.Atomicfile
use syscert.Config.{Config, DistributeTarget, effective_challenge}
use syscert.Renewal.{PublicKey, ecdsa, rsa, other_key, Certificate, Status, Parsers, inspect}
use syscert.Store.Disk.{read_current_cert}
use syscert.Observe.{Target, CertFacts, Snapshot, prometheus}

unfoldable pub key_type : PublicKey → Str
key_type (ecdsa curve) = lit "ECDSA " ++ curve
key_type (rsa bits) = lit "RSA " ++ itoa bits
key_type (other_key algorithm) = algorithm

abbrev found : Result Node → Bool
found (ok n) = true
found (err e) = false

unfoldable pub observe_targets : List DistributeTarget → Sys → List Target × Sys
observe_targets [] s = ([], s)
observe_targets (t ∷ ts) s =
    let (r, s') = stat (resolve t.path) s in
    let (rest, s'') = observe_targets ts s' in
    (record { artifact = t.artifact; path = t.path; present = found r } ∷ rest, s'')

unfoldable pub facts_of : Status × Certificate → CertFacts
unfolding key_type
facts_of (st, leaf) = record {
  not_before = st.not_before;
  not_after = st.not_after;
  renew_after = st.renew_at;
  renewal_due = st.due;
  issuer = leaf.issuer;
  serial = leaf.serial;
  key_type = key_type leaf.public_key;
}

module _ (g : Parsers) (version : Str) (marshal : Snapshot → Result Str) where
  unfoldable pub read_facts : Str → ℤ → Result Str → Option CertFacts
  unfolding facts_of
  read_facts renew_before now (err e) = none
  read_facts renew_before now (ok pem) = elim (inspect g pem renew_before now) [
    | err e ↦ none
    | ok found ↦ some (facts_of found)
  ]

  unfoldable pub gather_observation : Config → Str → ℤ → Sys → Snapshot × Sys
  unfolding observe_targets read_facts
  gather_observation cfg subject now s =
      let (pem, s') = read_current_cert cfg.store.path s in
      let (targets, s'') = observe_targets cfg.distribute s' in
      (
        record {
          version = version;
          subject = subject;
          ca = cfg.acme.ca;
          challenge = effective_challenge cfg;
          facts = read_facts cfg.renewal.renew_before now pem;
          targets = targets;
          generated = now;
        },
        s'',
      )

  unfoldable pub write_observation : Str → Result Str → Sys → Sys
  write_observation p (err e) s = s
  write_observation p (ok content) s = (Atomicfile.write (resolve p) content 0o644 none s).1

  -- json.MarshalIndent and a newline.
  unfoldable pub ansible_facts : Snapshot → Result Str
  ansible_facts snap = elim (marshal snap) [ err e ↦ err e | ok out ↦ ok (out ++ (10 ∷ [])) ]

  -- A failing write leaves a warning, and the run goes on.
  unfoldable pub write_observations : Config → Str → ℤ → Sys → Sys
  unfolding gather_observation write_observation ansible_facts
  write_observations cfg subject now s =
      if is_empty cfg.observe.metrics_file && is_empty cfg.observe.ansible_facts_file
      then s
      else (let (snap, s') = gather_observation cfg subject now s in
          let s'' =
            if is_empty cfg.observe.metrics_file
            then s'
            else write_observation cfg.observe.metrics_file (ok (prometheus snap)) s' in
          if is_empty cfg.observe.ansible_facts_file
          then s''
          else write_observation cfg.observe.ansible_facts_file (ansible_facts snap) s'')
