-- ===== src/Tests/Teardown.antt =====
-- Examples of taking the state down.
use syscert.Base.{◌≡◌, refl, true, [], ◌∷◌, ◌++◌}
use syscert.Go.Strings.{Str, lit, str_eq}
use syscert.Go.Filepath.{resolve, in_dir}
use syscert.Os.{Exec, ok, lookup, path_eq}
use syscert.Os.Laws.{path_ne}
use syscert.Trust.{sanitize, remove_anchors}
use syscert.Trust.Anchors.{remove_anchors-frame}
use syscert.Command.Teardown.{cmd_destroy, cmd_destroy-accounts}
use syscert.Tests.{running, plain_config}
use syscert.Tests.Runs.{machine, forced}

sanitize_test : sanitize (λ s. s) (lit "../my  ca.") ≡ lit "my-ca"
unfolding sanitize lit syscert.Go.Strings.trim
sanitize_test = refl

remove_anchors_example :
    lookup
      (lit "t" ∷ lit "x.pem" ∷ [])
      (remove_anchors (lit "/t") (lit "syscert-a.crt" ∷ []) running).1.fs
    ≡ lookup (lit "t" ∷ lit "x.pem" ∷ []) running.fs
unfolding path_eq str_eq lit resolve syscert.Go.Strings.split
remove_anchors_example =
    remove_anchors-frame (lit "/t") (lit "syscert-a.crt" ∷ []) (lit "t" ∷ lit "x.pem" ∷ []) running
      (path_ne (in_dir (lit "/t") (lit "syscert-a.crt")) (lit "t" ∷ lit "x.pem" ∷ []) refl, tt)

abbrev refresh : Str → Exec (Unit {0})
refresh command s = (ok tt, s)

cmd_destroy-accounts_example :
    lookup
      (resolve (lit "/s") ++ (lit "accounts" ∷ lit "x" ∷ []))
      (cmd_destroy machine refresh forced true [] [] running).1.fs
    ≡ lookup (resolve (lit "/s") ++ (lit "accounts" ∷ lit "x" ∷ [])) running.fs
unfolding syscert.Command.load_config syscert.Os.◌>>=◌ syscert.Config.apply_defaults lit
cmd_destroy-accounts_example =
    cmd_destroy-accounts machine refresh forced [] [] (lit "x" ∷ []) plain_config running running
      refl refl
