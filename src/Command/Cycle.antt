-- ===== src/Command/Cycle.antt =====
-- cmd/syscert/ensure.go: the ensure cycle and the default command.
use syscert.Base.{
  ℕ, Bool, true, false, not, Option, none, some, List, [], ◌∷◌, if◌then◌else◌, ◌≡◌, refl, sym, ap,
  subst, zero, ◌↔◌, ◌⊎◌, inl, inr,
}
use syscert.Base.Int.{ℤ, pos}
use syscert.Go.Strings.{Str}
use syscert.Os.{Error, Result, ok, err, Sys}
use syscert.Config.{Config}
use syscert.Renewal.{due}
use syscert.Store.{Artifact}
use syscert.Store.Disk.{read_current_cert}
use syscert.Acme.{Obtainer}
use syscert.Envfile.{Kv}
use syscert.Validate.{Problem}
use syscert.Distribute.{run}
use syscert.Access.{check_store_access, check_distribute_targets}
use syscert.Observe.Files.{write_observations}
use syscert.Interval.{Round, parse_interval, run_interval_loop}
use syscert.Command.{Runtime, Args, in_env, load_env_files, load_and_check, provision}

abbrev pub failure : Result (Unit {0}) → Option Error
failure (ok u) = none
failure (err e) = some e

-- Whether a certificate is to be obtained: none can be read, or it is due.
unfoldable pub need : Runtime → Config → Result Str → Sys → Result Bool
need w cfg (err e) s = ok true
need w cfg (ok pem) s = due w.parsers pem cfg.renewal.renew_before (w.clock s)

-- The end of the cycle: the targets, then the state files, whatever came of the targets.
unfoldable pub deliver_and_observe : Runtime → Config → Str → Sys → Option Error × Sys
deliver_and_observe w cfg subject s =
    let (r, s') = run cfg.store.path cfg.distribute s in
    (failure r, write_observations w.parsers w.version w.marshal cfg subject (w.clock s') s')

abbrev pub after_provision :
    Runtime → Config → Str → Result (List Artifact) × Sys → Option Error × Sys
after_provision w cfg subject (err e, s) = (some e, s)
after_provision w cfg subject (ok arts, s) = deliver_and_observe w cfg subject s

abbrev pub decided : Runtime → Config → Str → Bool → Sys → Result Bool → Option Error × Sys
decided w cfg subject staging s (err e) = (some e, s)
decided w cfg subject staging s (ok false) = deliver_and_observe w cfg subject s
decided w cfg subject staging s (ok true) =
    after_provision w cfg subject (provision w cfg subject staging s)

unfoldable pub ensure_cycle : Runtime → Config → Str → Bool → Sys → Option Error × Sys
unfolding need deliver_and_observe
ensure_cycle w cfg subject staging s =
    let (pem, s') = read_current_cert cfg.store.path s in
    decided w cfg subject staging s' (need w cfg pem s')

abbrev pub one_shot : Option Error × Sys → ℕ × Sys
one_shot (none, s) = (0, s)
one_shot (some e, s) = (1, s)

-- With an interval, the exit code is `none` as long as no round is cancelled.
abbrev pub run_ensure : ℤ → List Round → (Sys → Option Error × Sys) → Sys → Option ℕ × Sys
run_ensure (pos zero) rounds cycle s = let (code, s') = one_shot (cycle s) in (some code, s')
run_ensure every rounds cycle s = let out = run_interval_loop cycle rounds s in (out.2, out.1)

-- After the interval flag was parsed.
unfoldable pub ensure_every : Runtime → Args → List Round → ℤ → Sys → Option ℕ × Sys
unfolding load_and_check
ensure_every w a rounds every s = loaded (load_and_check w a.config_path s)
  where
    stopped : ℕ × Sys → Option ℕ × Sys
    stopped (code, s) = (some code, s)

    -- The targets are probed before the first cycle, and what that shows stops nothing.
    allowed : Config → Str → Option Error × Sys → Option ℕ × Sys
    allowed cfg subject (some e, s) = (some 1, s)
    allowed cfg subject (none, s) =
        run_ensure every rounds (ensure_cycle w cfg subject a.staging)
          (check_distribute_targets cfg s).1

    loaded : Result (Config × Str × List Problem) × Sys → Option ℕ × Sys
    loaded (err e, s) = (some 2, s)
    loaded (ok (cfg, subject, p ∷ ps), s) = (some 1, s)
    loaded (ok (cfg, subject, []), s) = allowed cfg subject (check_store_access cfg.store.path s)

abbrev parsed_every : Runtime → Args → List Round → Result ℤ → Sys → Option ℕ × Sys
parsed_every w a rounds (err e) s = (some 2, s)
parsed_every w a rounds (ok every) s = ensure_every w a rounds every s

abbrev with_env : Runtime → Args → List Round → Result (List Kv) × Sys → Option ℕ × Sys
with_env w a rounds (err e, s) = (some 2, s)
with_env w a rounds (ok env, s) =
    parsed_every (in_env w env) a rounds (parse_interval w.parsers.parse_duration a.interval) s

unfoldable pub cmd_ensure : Runtime → Args → List Round → Sys → Option ℕ × Sys
unfolding ensure_every load_env_files
cmd_ensure w a rounds s =
    if not a.parsed then (some 2, s) else with_env w a rounds (load_env_files w a.env_files s)

-- If the certificate can be read and is not due, nothing depends on the CA: with any other one
-- behind the interface the cycle gives the same result and the same host.
pub ensure_cycle_offline :
    (w : Runtime) (ob : Obtainer) (cfg : Config) (subject : Str) (staging : Bool) (s : Sys)
    → let (pem, s') = read_current_cert cfg.store.path s in
      need w cfg pem s' ≡ ok false
      → ensure_cycle (record w { obtainer = ob }) cfg subject staging s
        ≡ ensure_cycle w cfg subject staging s
unfolding ensure_cycle need
ensure_cycle_offline w ob cfg subject staging s h = rw h refl

-- The state in which the targets are delivered: the certificate is not due and nothing was done, or
-- it was obtained and stored.
abbrev pub IsReady : Runtime → Config → Str → Bool → Sys → Sys → Type 0
IsReady w cfg subject staging s t =
    let (pem, s') = read_current_cert cfg.store.path s in
    ((need w cfg pem s' ≡ ok false) × (t ≡ s'))
    ⊎ ((need w cfg pem s' ≡ ok true)
        × (arts : List Artifact) × (provision w cfg subject staging s' ≡ (ok arts, t)))

pub delivered_iff :
    (w : Runtime) (cfg : Config) (subject : Str) (s : Sys)
    → ((deliver_and_observe w cfg subject s).0 ≡ none)
      ↔ ((run cfg.store.path cfg.distribute s).0 ≡ ok tt)
unfolding deliver_and_observe
delivered_iff w cfg subject s = go (run cfg.store.path cfg.distribute s).0
  where
    go : (r : Result (Unit {0})) → (failure r ≡ none) ↔ (r ≡ ok tt)
    go (ok tt) = (λ h. refl, λ h. refl)
    go (err e) = (λ h. cc, λ h. cc)

-- A cycle reports success exactly if the certificate was current, or was obtained and stored, and
-- then every delivery succeeded.
pub ensure_cycle-ok_iff :
    (w : Runtime) (cfg : Config) (subject : Str) (staging : Bool) (s : Sys)
    → ((ensure_cycle w cfg subject staging s).0 ≡ none) ↔ (
        (t : Sys) × IsReady w cfg subject staging s t
        × ((run cfg.store.path cfg.distribute t).0 ≡ ok tt))
unfolding ensure_cycle
ensure_cycle-ok_iff w cfg subject staging s =
    let (pem, s') = read_current_cert cfg.store.path s in decide s' (need w cfg pem s')
  where
    provided :
        (s' : Sys) (p : Result (List Artifact) × Sys)
        → ((after_provision w cfg subject p).0 ≡ none) ↔ (
            (t : Sys) × (((Result.ok true ≡ ok false) × (t ≡ s'))
              ⊎ ((Result.ok true ≡ ok true) × (arts : List Artifact) × (p ≡ (ok arts, t))))
            × ((run cfg.store.path cfg.distribute t).0 ≡ ok tt))
    provided s' (err e, t) = (λ h. cc, λ h. elim h.1 [ inl q ↦ cc q.0 | inr q ↦ cc q.2 ])
    provided s' (ok arts, t) = (
      λ h. (t, inr (refl, arts, refl), (delivered_iff w cfg subject t).0 h),
      λ (u, ready, done). elim ready [
        | inl q ↦ cc q.0
        | inr q ↦ (delivered_iff w cfg subject t).1 (
            subst (λ x. (run cfg.store.path cfg.distribute x).0 ≡ ok tt) (sym (ap (λ x. x.1) q.2))
              done)
      ],
    )

    decide :
        (s' : Sys) (n : Result Bool)
        → ((decided w cfg subject staging s' n).0 ≡ none) ↔ (
            (t : Sys) × (((n ≡ ok false) × (t ≡ s'))
              ⊎ ((n ≡ ok true)
                  × (arts : List Artifact) × (provision w cfg subject staging s' ≡ (ok arts, t))))
            × ((run cfg.store.path cfg.distribute t).0 ≡ ok tt))
    decide s' (err e) = (λ k. cc, λ k. elim k.1 [ inl q ↦ cc q.0 | inr q ↦ cc q.0 ])
    decide s' (ok false) = (
      λ h. (s', inl (refl, refl), (delivered_iff w cfg subject s').0 h),
      λ (u, ready, done). elim ready [
        | inl q ↦
            (delivered_iff w cfg subject s').1
              (subst (λ x. (run cfg.store.path cfg.distribute x).0 ≡ ok tt) q.1 done)
        | inr q ↦ cc q.0
      ],
    )
    decide s' (ok true) = provided s' (provision w cfg subject staging s')
