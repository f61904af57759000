-- ===== src/Command/Void.antt =====
-- cmd/syscert/void.go: the revocation and re-issue of a certificate.
use syscert.Base.{ℕ, not, List, if◌then◌else◌}
use syscert.Go.Strings.{Str}
use syscert.Os.{Result, ok, err, Sys}
use syscert.Config.{Config}
use syscert.Store.{Artifact}
use syscert.Store.Disk.{read_current_cert}
use syscert.Acme.{revoke_cert}
use syscert.Distribute.{run}
use syscert.Command.{Runtime, Args, Program, proceed, provision, confirm, eab_hmac}

abbrev pub revoked_code : Result (Unit {0}) → ℕ
revoked_code (ok u) = 0
revoked_code (err e) = 1

-- The end of `void`: a failed revocation leaves the exit code at 1.
abbrev pub void_delivered : Result (Unit {0}) → Result (Unit {0}) × Sys → ℕ × Sys
void_delivered revoked (err e, s) = (1, s)
void_delivered revoked (ok u, s) = (revoked_code revoked, s)

abbrev pub void_provisioned : Config → Result (Unit {0}) → Result (List Artifact) × Sys → ℕ × Sys
void_provisioned cfg revoked (err e, s) = (1, s)
void_provisioned cfg revoked (ok arts, s) =
    void_delivered revoked (run cfg.store.path cfg.distribute s)

abbrev pub void_reissue : Runtime → Args → Config → Str → Result (Unit {0}) × Sys → ℕ × Sys
void_reissue w a cfg subject (revoked, s) =
    void_provisioned cfg revoked (provision w cfg subject a.staging s)

abbrev pub void_read : Runtime → Args → Str → Config → Str → Result Str × Sys → ℕ × Sys
void_read w a line cfg subject (err e, s) = (1, s)
void_read w a line cfg subject (ok cert_pem, s) =
    if not (confirm line a.force)
    then (0, s)
    else void_reissue w a cfg subject (revoke_cert w.obtainer cfg cert_pem a.staging (eab_hmac w) s)

unfoldable pub cmd_void : Runtime → Args → Str → Program
unfolding proceed provision confirm
cmd_void w a line =
    proceed w a
      λ v cfg subject s. void_read v a line cfg subject (read_current_cert cfg.store.path s)
