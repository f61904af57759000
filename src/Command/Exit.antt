-- ===== src/Command/Exit.antt =====
-- What the exit codes of the commands of cmd/syscert mean.
use syscert.Base.{
  Bool, true, false, not, Option, none, some, List, [], ◌∷◌, ◌++◌, if◌then◌else◌, ◌≡◌, refl, sym,
  ap, subst, ◌↔◌, ◌⊎◌, inl, inr,
}
use syscert.Go.Strings.{Str}
use syscert.Os.{Error, Result, ok, err, Sys}
use syscert.Config.{Config}
use syscert.Envfile.{Kv}
use syscert.Validate.{Problem, validate}
use syscert.Validate.Rules.{IsAccepted}
use syscert.Validate.Accepted.{validate-eq-nil_iff}
use syscert.Store.{Artifact}
use syscert.Acme.{revoke_cert}
use syscert.Distribute.{run}
use syscert.Access.{check_store_access}
use syscert.Command.{
  Runtime, Args, Program, load_config, load_and_check, checked, guarded, after_env, in_env,
  eab_hmac, load_env_files, proceed, provision, confirm, load_and_check_of,
}
use syscert.Command.Void.{void_read, void_reissue, void_provisioned, void_delivered, revoked_code}

module _ (cfg : Config) (revoked : Result (Unit {0})) where
  delivered_iff :
      (r : Result (Unit {0}) × Sys)
      → ((void_delivered revoked r).0 ≡ 0) ↔ ((revoked ≡ ok tt) × (r.0 ≡ ok tt))
  delivered_iff (err e, s) = (λ h. cc, λ h. cc h.1)
  delivered_iff (ok tt, s) = go revoked
    where
      go : (v : Result (Unit {0})) → (revoked_code v ≡ 0) ↔ ((v ≡ ok tt) × (Result.ok tt ≡ ok tt))
      go (ok tt) = (λ h. (refl, refl), λ h. refl)
      go (err e) = (λ h. cc, λ h. cc h.0)

  provisioned_iff :
      (p : Result (List Artifact) × Sys)
      → ((void_provisioned cfg revoked p).0 ≡ 0) ↔ (
          (revoked ≡ ok tt)
          × (t : Sys) × (arts : List Artifact) × (p ≡ (ok arts, t))
          × ((run cfg.store.path cfg.distribute t).0 ≡ ok tt))
  provisioned_iff (err e, s) = (λ h. cc, λ h. cc h.3)
  provisioned_iff (ok arts, s) = (
    λ h.
        let (v, r) = (delivered_iff (run cfg.store.path cfg.distribute s)).0 h in
        (v, s, arts, refl, r),
    λ (v, t, arts', p, r).
        (delivered_iff (run cfg.store.path cfg.distribute s)).1 (
          v,
          subst (λ x. (run cfg.store.path cfg.distribute x).0 ≡ ok tt) (sym (ap (λ x. x.1) p)) r,
        ),
  )

-- `void` with a certificate that could be read exits with 0 exactly if it was not confirmed, or the
-- old certificate was revoked, the new one obtained and stored, and every delivery succeeded.
pub void_read-zero_iff :
    (w : Runtime) (a : Args) (line : Str) (cfg : Config) (subject cert_pem : Str) (s : Sys)
    → ((void_read w a line cfg subject (ok cert_pem, s)).0 ≡ 0) ↔ (
        (confirm line a.force ≡ false)
        ⊎ ((confirm line a.force ≡ true)
            × (s' : Sys) × (revoke_cert w.obtainer cfg cert_pem a.staging (eab_hmac w) s
                ≡ (ok tt, s'))
            × (t : Sys) × (arts : List Artifact) × (provision w cfg subject a.staging s'
                ≡ (ok arts, t))
            × ((run cfg.store.path cfg.distribute t).0 ≡ ok tt)))
void_read-zero_iff w a line cfg subject cert_pem s =
    go (confirm line a.force) (revoke_cert w.obtainer cfg cert_pem a.staging (eab_hmac w) s)
  where
    go :
        (answer : Bool) (v : Result (Unit {0}) × Sys)
        → ((if not answer then (0, s) else void_reissue w a cfg subject v).0 ≡ 0) ↔ (
            (answer ≡ false)
            ⊎ ((answer ≡ true)
                × (s' : Sys) × (v ≡ (ok tt, s'))
                × (t : Sys) × (arts : List Artifact) × (provision w cfg subject a.staging s'
                    ≡ (ok arts, t))
                × ((run cfg.store.path cfg.distribute t).0 ≡ ok tt)))
    go false v = (λ h. inl refl, λ h. refl)
    go true (r, u) = (
      λ h.
          let (v, t, arts, p, q) =
            (provisioned_iff cfg r (provision w cfg subject a.staging u)).0 h in
          inr (refl, u, ap (λ x. (x, u)) v, t, arts, p, q),
      λ h. elim h [
        | inl n ↦ cc n
        | inr (y, s', e, t, arts, p, q) ↦
            (provisioned_iff cfg r (provision w cfg subject a.staging u)).1 (
              ap (λ x. x.0) e,
              t,
              arts,
              subst (λ x. provision w cfg subject a.staging x ≡ (ok arts, t))
                  (sym (ap (λ x. x.1) e)) p,
              q,
            )
      ],
    )

nil_right : {A : Type 0} (xs ys : List A) → xs ++ ys ≡ [] → ys ≡ []
nil_right [] ys h = h
nil_right (x ∷ xs) ys h = cc h

-- `issue`, `renew` and `void` never act on a config that the rules refuse: two bodies that agree on
-- the accepted configs, in any environment, give the same exit code and the same host.
pub proceed_accepted :
    (w : Runtime) (a : Args) (body other : Runtime → Config → Str → Program)
    → ((env : List Kv) (cfg : Config) (subject : Str) (s : Sys)
        → IsAccepted w.checks cfg
        → body (in_env w env) cfg subject s ≡ other (in_env w env) cfg subject s)
    → (s : Sys) → proceed w a body s ≡ proceed w a other s
unfolding proceed load_and_check
proceed_accepted w a body other same s = go a.parsed
  where
    store :
        (env : List Kv) (cfg : Config) (subject : Str)
        → IsAccepted w.checks cfg
        → (r : Option Error × Sys)
        → guarded (body (in_env w env) cfg subject) r ≡ guarded (other (in_env w env) cfg subject) r
    store env cfg subject good (some e, t) = refl
    store env cfg subject good (none, t) = same env cfg subject t good

    tested :
        (env : List Kv) (cfg : Config) (subject : Str) (ps : List Problem) (t : Sys)
        → (ps ≡ [] → IsAccepted w.checks cfg)
        → checked (body (in_env w env)) (ok (cfg, subject, ps), t)
          ≡ checked (other (in_env w env)) (ok (cfg, subject, ps), t)
    tested env cfg subject [] t good =
        store env cfg subject (good refl) (check_store_access cfg.store.path t)
    tested env cfg subject (p ∷ ps) t good = refl

    loaded :
        (env : List Kv) (r : Result Config × Sys)
        → checked (body (in_env w env)) (load_and_check_of w r)
          ≡ checked (other (in_env w env)) (load_and_check_of w r)
    loaded env (err e, t) = refl
    loaded env (ok cfg, t) =
        tested env cfg _ _ t
          λ h. (validate-eq-nil_iff w.checks cfg).0 (nil_right _ (validate w.checks cfg) h)

    env :
        (r : Result (List Kv) × Sys)
        → after_env (λ v t. checked (body v) (load_and_check v a.config_path t)) w r
          ≡ after_env (λ v t. checked (other v) (load_and_check v a.config_path t)) w r
    env (err e, t) = refl
    env (ok vars, t) = loaded vars (load_config w a.config_path t)

    go :
        (b : Bool)
        → (if not b
            then (2, s)
            else after_env
                (λ v t. checked (body v) (load_and_check v a.config_path t))
                w
                (load_env_files w a.env_files s))
          ≡ (if not b
              then (2, s)
              else after_env
                  (λ v t. checked (other v) (load_and_check v a.config_path t))
                  w
                  (load_env_files w a.env_files s))
    go false = refl
    go true = env (load_env_files w a.env_files s)
