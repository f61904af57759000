-- ===== src/Validate/Accepted.antt =====
-- The validator of internal/validate/validate.go decides its rules.
use syscert.Base.{◌≡◌, refl, ◌≢◌, ◌↔◌, ◌⊎◌, true, false, some, [], ◌∷◌, ℕ}
use syscert.Base.Int.{pos}
use syscert.Go.Strings.{Str, lit, is_empty, OneOf, parse_octal}
use syscert.Config.{Config}
use syscert.Validate.{
  Host, acme_problems, store_problems, validate, valid_key_types, valid_log_formats,
  valid_propagation_checks,
}
use syscert.Validate.Rules.{IsAccepted}
use syscert.Validate.Parts.{problem_if-eq-nil, then_iff, parts_iff, listed_iff}
use syscert.Validate.Loops.{
  ip_problems_iff, bundle_problems_iff, targets_problems_iff, output_problems_iff,
}
use syscert.Validate.Fields.{
  ca_iff, directory_iff, file_iff, dir_mode_iff, archive_keep_iff, challenge_iff,
}

module _ (h : Host) (c : Config) where
  abbrev CaPart : Type 0
  CaPart = OneOf c.acme.ca (lit "letsencrypt" ∷ lit "custom" ∷ [])

  -- The checks of the `[acme]` table, given those of the CA.
  acme_iff : (acme_problems h c ≡ []) ↔ (
      CaPart
      × ((c.acme.email ≢ [])
          × ((c.acme.ca ≢ lit "letsencrypt" → c.acme.directory_url ≢ [])
              × (((c.acme.ca_bundle ≡ []) ⊎ (h.stat_ok c.acme.ca_bundle ≡ true))
                  × OneOf c.acme.dns.propagation_check
                      ([] ∷ lit "all" ∷ lit "authoritative" ∷ lit "off" ∷ [])))))
  unfolding acme_problems
  acme_iff =
      then_iff
        (parts_iff _ _ (ca_iff c) (
          parts_iff _ _ (then_iff (problem_if-eq-nil _ _ _ _) (email_iff c.acme.email)) (
            parts_iff _ _ (problem_if-eq-nil _ _ _ _) (
              parts_iff _ _ (then_iff (problem_if-eq-nil _ _ _ _) (file_iff c.acme.ca_bundle _))
                (listed_iff valid_propagation_checks c.acme.dns.propagation_check _ _ _)))))
        (
          λ k. (k.0, (k.1.0, ((directory_iff _ _ k.0).0 k.1.1.0, k.1.1.1))),
          λ k. (k.0, (k.1.0, ((directory_iff _ _ k.0).1 k.1.1.0, k.1.1.1))),
        )
    where
      email_iff : (s : Str) → (is_empty s ≡ false) ↔ (s ≢ [])
      email_iff [] = (λ e. cc, λ e. absurd (e refl))
      email_iff (x ∷ s) = (λ _ e. cc, λ _. refl)

  store_iff : (store_problems c ≡ []) ↔ (
      OneOf c.logging.format ([] ∷ lit "text" ∷ lit "json" ∷ [])
      × (((n : ℕ) × (c.store.archive_keep ≡ pos n))
          × ((c.store.dir_mode ≡ []) ⊎ ((m : ℕ) × (parse_octal c.store.dir_mode ≡ some m)))))
  unfolding store_problems
  store_iff = parts_iff _ _ (listed_iff valid_log_formats c.logging.format _ _ _) (
      parts_iff _ _ (then_iff (problem_if-eq-nil _ _ _ _) (archive_keep_iff c.store.archive_keep))
        (then_iff (problem_if-eq-nil _ _ _ _) (dir_mode_iff c.store.dir_mode _)))

  -- The validator returns no problem exactly for the configurations that meet every rule.
  pub validate-eq-nil_iff : (validate h c ≡ []) ↔ IsAccepted h c
  unfolding validate
  validate-eq-nil_iff =
      then_iff
        (parts_iff _ _ acme_iff (
          parts_iff _ _ store_iff (
            parts_iff _ _ (challenge_iff c) (
              parts_iff _ _ (listed_iff valid_key_types c.cert.key_type _ _ _) (
                parts_iff _ _ (ip_problems_iff h _ c.cert.ip_sans) (
                  parts_iff _ _ (bundle_problems_iff [] c.bundle.order) (
                    parts_iff _ _ (targets_problems_iff 0 c.distribute) (
                      parts_iff _ _ (output_problems_iff _ _ _ c.observe.metrics_file)
                        (output_problems_iff _ _ _ c.observe.ansible_facts_file)))))))))
        (
          λ (
            acme,
            (store, (challenge, (key_type, (ip_sans, (order, (targets, (metrics, facts))))))),
          ).
              record {
                ca = acme.0;
                email = acme.1.0;
                directory_url = acme.1.1.0;
                ca_bundle = acme.1.1.1.0;
                propagation_check = acme.1.1.1.1;
                format = store.0;
                archive_keep = store.1.0;
                dir_mode = store.1.1;
                challenge = challenge;
                key_type = key_type;
                ip_sans = ip_sans;
                order = order;
                distribute = targets;
                metrics_file = metrics;
                ansible_facts_file = facts;
              },
          λ a. (
            (a.ca, (a.email, (a.directory_url, (a.ca_bundle, a.propagation_check)))),
            (
              (a.format, (a.archive_keep, a.dir_mode)),
              (
                a.challenge,
                (
                  a.key_type,
                  (a.ip_sans, (a.order, (a.distribute, (a.metrics_file, a.ansible_facts_file)))),
                ),
              ),
            ),
          ),
        )
