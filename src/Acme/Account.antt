-- ===== src/Acme/Account.antt =====
-- The reuse of an account, internal/acme/lego.go.
use syscert.Base.{◌≡◌, refl, ap, ◌∙◌, true, some, []}
use syscert.Go.Strings.{Str}
use syscert.Os.{ok, Sys, ◌>>=◌, pure}
use syscert.Os.Progress.{wrapped}
use syscert.Acme.{Params, Library, account_signer, connect, account_for, new_account}

module _ (l : Library) (p : Params) (kid hmac : Str) where
  abbrev rebound : Params
  rebound = record p { eab_kid = kid; eab_hmac = hmac }

  rebound-signer : account_signer l rebound ≡ account_signer l p
  unfolding account_signer
  rebound-signer = refl

  rebound-connect : connect l rebound ≡ connect l p
  unfolding connect
  rebound-connect = refl

known_account :
    (l : Library) (p : Params) (reg : Str) (key : l.Key) (s s' : Sys)
    → l.resolve_account key s ≡ (ok (some reg), s')
    → account_for l p (key, true) s ≡ (ok reg, s')
unfolding account_for ◌>>=◌ pure
known_account l p reg key s s' known = rw known refl

new_account_steps :
    (l : Library) (p : Params) (reg : Str) (key : l.Key) (s s1 s2 s3 : Sys)
    → account_signer l p s ≡ (ok (key, true), s1)
    → connect l p s1 ≡ (ok tt, s2)
    → account_for l p (key, true) s2 ≡ (ok reg, s3)
    → new_account l p s ≡ (ok reg, s3)
unfolding new_account ◌>>=◌
new_account_steps l p reg key s s1 s2 s3 signer joined found =
    rw (signer, joined)
      (wrapped "register account: %w" [] (account_for l p (key, true)) reg s2 s3 found)

-- If the account's key is read from the disk, the client connects, and the CA knows the account,
-- then the external account binding is not used: whatever its two settings are, the account that
-- was found is returned, in the state after the look-up.
pub new_account_reuses :
    (l : Library) (p : Params) (kid hmac reg : Str) (key : l.Key) (s s1 s2 s3 : Sys)
    → account_signer l p s ≡ (ok (key, true), s1)
    → connect l p s1 ≡ (ok tt, s2)
    → l.resolve_account key s2 ≡ (ok (some reg), s3)
    → new_account l (record p { eab_kid = kid; eab_hmac = hmac }) s ≡ (ok reg, s3)
new_account_reuses l p kid hmac reg key s s1 s2 s3 signer joined known =
    new_account_steps l (rebound l p kid hmac) reg key s s1 s2 s3
      (ap (λ f. f s) (rebound-signer l p kid hmac) ∙ signer)
      (ap (λ f. f s1) (rebound-connect l p kid hmac) ∙ joined)
      (known_account l (rebound l p kid hmac) reg key s2 s3 known)
