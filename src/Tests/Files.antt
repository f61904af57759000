-- ===== src/Tests/Files.antt =====
-- Examples of atomic replacement, delivery and the store.
use syscert.Base.{◌≡◌, ◌↔◌, refl, none, some, List, [], ◌∷◌, ◌++◌, arith, length, inl, inr}
use syscert.Go.Strings.{lit, str_eq}
use syscert.Go.Filepath.{FilePath, resolve}
use syscert.Os.{ok, path_eq, lookup}
use syscert.Os.Laws.{path_ne}
use syscert.Os.Triples.{Outcome}
use syscert.Atomicfile
use syscert.Atomicfile.States.{temp_path, Untouched, Replaced}
use syscert.Atomicfile.Atomic.{temp_meta, write_is_atomic}
use syscert.Distribute.{run, one, attempts, target_mode, write_atomic}
use syscert.Distribute.Delivery.{Visits, run-ok_iff}
use syscert.Distribute.Placement.{placed_meta, write_atomic_placed}
use syscert.Validate.Rules.{TargetFits}
use syscert.Store.{Decoder, Material, Artifact, build, artifacts, pem_blocks}
use syscert.Store.Disk.{wipe_certs}
use syscert.Store.Bundle.{Shrinks, AlikeResults, pem_blocks-fuel, build_confines_key}
use syscert.Store.Files.{wipe_certs-accounts}
use syscert.Distribute.Modes.{other_read, target_mode_private}
use syscert.Tests.{running, refusing, cert_target, key_target}

abbrev target_path : FilePath
target_path = lit "t" ∷ lit "x.pem" ∷ []

write_is_atomic_example :
    Outcome
      (λ _.
        Replaced target_path
          (temp_path target_path 7)
          running
          (lit "C")
          (record (temp_meta running.host) { mode = 0o644 }))
      (Untouched target_path (temp_path target_path 7) running)
      (Atomicfile.write target_path (lit "C") 0o644 none running).0
      (Atomicfile.write target_path (lit "C") 0o644 none running).1
unfolding lit path_eq str_eq syscert.Os.Calls.temp_name
write_is_atomic_example =
    write_is_atomic running target_path (lit "C") 0o644
      (path_ne target_path (temp_path target_path 7) refl)

write_is_atomic_refused_test :
    lookup target_path (Atomicfile.write target_path (lit "C") 0o644 none refusing).1.fs ≡ none
unfolding Atomicfile.write lit lookup syscert.Os.◌>>=◌ syscert.Os.Calls.create_temp path_eq str_eq
    syscert.Os.Calls.deferring syscert.Os.Calls.remove syscert.Os.Calls.write_open
    syscert.Os.Calls.close syscert.Os.insert syscert.Os.Calls.temp_name syscert.Go.Strings.itoa
    syscert.Os.erase
write_is_atomic_refused_test = refl

write_atomic_placed_example :
    Outcome
      (λ _.
        Replaced
          (resolve (lit "/t/x.pem"))
          (temp_path (resolve (lit "/t/x.pem")) 7)
          running
          (lit "C")
          (placed_meta running.host 0o640 none (some 33)))
      (Untouched (resolve (lit "/t/x.pem")) (temp_path (resolve (lit "/t/x.pem")) 7) running)
      (write_atomic (lit "/t/x.pem") (lit "C") 0o640 none (some 33) running).0
      (write_atomic (lit "/t/x.pem") (lit "C") 0o640 none (some 33) running).1
unfolding lit path_eq str_eq resolve syscert.Go.Strings.split syscert.Os.Calls.temp_name
write_atomic_placed_example =
    write_atomic_placed running (lit "/t/x.pem") (lit "C") 0o640 none (some 33)
      (path_ne (resolve (lit "/t/x.pem")) (temp_path (resolve (lit "/t/x.pem")) 7) refl)

run-ok_example :
    ((run (lit "/s") (cert_target ∷ []) running).0 ≡ ok tt)
    ↔ Visits (lit "/s") (λ t u. (one (lit "/s") t u).0 ≡ ok tt) (cert_target ∷ []) running
run-ok_example = run-ok_iff (lit "/s") (cert_target ∷ []) running

run_delivers_test : (run (lit "/s") (cert_target ∷ []) running).0 ≡ ok tt
unfolding run one str_eq lit lookup path_eq resolve write_atomic attempts target_mode
    syscert.Distribute.deliver syscert.Os.◌>>=◌ syscert.Os.wrapping syscert.Os.Calls.read_file
    syscert.Go.Strings.split syscert.Distribute.parse_mode syscert.Distribute.owner_of
    syscert.Distribute.look_up syscert.Distribute.group_of Atomicfile.write
    Atomicfile.fill_and_rename Atomicfile.run_prepare Atomicfile.write_or_close
    syscert.Distribute.artifact_file syscert.Distribute.chown_to syscert.Distribute.default_mode
    syscert.Distribute.explain_write_error syscert.Distribute.explained syscert.Distribute.id_text
    syscert.Distribute.is_errno syscert.Distribute.is_permission syscert.Distribute.is_read_only
    syscert.Distribute.join_errors syscert.Distribute.relabel syscert.Distribute.running_user
    syscert.Go.Filepath.clean syscert.Go.Filepath.clean_parts syscert.Go.Filepath.clean_step
    syscert.Go.Filepath.dir syscert.Go.Filepath.dir_prefix syscert.Go.Filepath.init_parts
    syscert.Go.Filepath.is_abs syscert.Go.Strings.itoa syscert.Go.Strings.join_with
    syscert.Go.Strings.octal_digits syscert.Go.Strings.parse_octal syscert.Os.call
    syscert.Os.Calls.chcon syscert.Os.Calls.chmod syscert.Os.Calls.chown syscert.Os.Calls.close
    syscert.Os.Calls.create_temp syscert.Os.Calls.deferring syscert.Os.erase syscert.Os.insert
    syscert.Os.Calls.remove syscert.Os.Calls.rename syscert.Os.Calls.temp_name
    syscert.Os.Calls.write_open
run_delivers_test = refl

-- The first target fails, since the store has no key, and the second is delivered.
attempts_go_on_test : length (attempts (lit "/s") (key_target ∷ cert_target ∷ []) running).0 ≡ 1
unfolding run one str_eq lit lookup path_eq resolve write_atomic attempts target_mode
    syscert.Distribute.deliver syscert.Os.◌>>=◌ syscert.Os.wrapping syscert.Os.Calls.read_file
    syscert.Go.Strings.split syscert.Distribute.parse_mode syscert.Distribute.owner_of
    syscert.Distribute.look_up syscert.Distribute.group_of Atomicfile.write
    Atomicfile.fill_and_rename Atomicfile.run_prepare Atomicfile.write_or_close
    syscert.Distribute.artifact_file syscert.Distribute.chown_to syscert.Distribute.default_mode
    syscert.Distribute.explain_write_error syscert.Distribute.explained syscert.Distribute.id_text
    syscert.Distribute.is_errno syscert.Distribute.is_permission syscert.Distribute.is_read_only
    syscert.Distribute.join_errors syscert.Distribute.relabel syscert.Distribute.running_user
    syscert.Go.Filepath.clean syscert.Go.Filepath.clean_parts syscert.Go.Filepath.clean_step
    syscert.Go.Filepath.dir syscert.Go.Filepath.dir_prefix syscert.Go.Filepath.init_parts
    syscert.Go.Filepath.is_abs syscert.Go.Strings.itoa syscert.Go.Strings.join_with
    syscert.Go.Strings.octal_digits syscert.Go.Strings.parse_octal syscert.Os.call
    syscert.Os.Calls.chcon syscert.Os.Calls.chmod syscert.Os.Calls.chown syscert.Os.Calls.close
    syscert.Os.Calls.create_temp syscert.Os.Calls.deferring syscert.Os.erase syscert.Os.insert
    syscert.Os.Calls.remove syscert.Os.Calls.rename syscert.Os.Calls.temp_name
    syscert.Os.Calls.write_open
attempts_go_on_test = refl

key_target_fits : TargetFits key_target
unfolding lit syscert.Validate.world_readable syscert.Go.Strings.parse_octal
key_target_fits = record { artifact = inr (inl refl); mode = λ _ _. refl }

target_mode_private_example : other_read 0o640 ≡ 0
unfolding target_mode lit syscert.Go.Strings.parse_octal
target_mode_private_example = target_mode_private key_target 0o640 key_target_fits (inl refl) refl

-- A decoder of blocks that are one byte each.
abbrev bytewise : Decoder
bytewise [] = none
bytewise (c ∷ s) = some (c ∷ [], s)

bytewise-Shrinks : Shrinks bytewise
bytewise-Shrinks [] b r h = cc h
bytewise-Shrinks (c ∷ s) b r h = ground (arith, h)

abbrev issued : Material
issued = record {
  certificate = lit "LI";
  private_key = lit "K";
  issuer_certificate = lit "I";
  root = [];
}

pem_blocks-fuel_example : pem_blocks bytewise 3 (lit "LI") ≡ pem_blocks bytewise 9 (lit "LI")
unfolding lit
pem_blocks-fuel_example =
    pem_blocks-fuel bytewise 3 9 (lit "LI") bytewise-Shrinks (omega arith) (omega arith)

build_confines_key_example :
    AlikeResults
      (build bytewise issued (lit "key" ∷ []))
      (build bytewise (record issued { private_key = lit "other" }) (lit "key" ∷ []))
build_confines_key_example = build_confines_key bytewise issued (lit "other") (lit "key" ∷ [])

abbrev issued_artifacts : List Artifact
issued_artifacts = artifacts issued (lit "cert" ∷ []) (lit "L", lit "I")

wipe_certs-accounts_example :
    lookup
      (resolve (lit "/s") ++ (lit "accounts" ∷ lit "x" ∷ []))
      (wipe_certs (lit "/s") running).2.fs
    ≡ lookup (resolve (lit "/s") ++ (lit "accounts" ∷ lit "x" ∷ [])) running.fs
wipe_certs-accounts_example = wipe_certs-accounts (lit "/s") (lit "x" ∷ []) running
