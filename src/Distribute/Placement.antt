-- ===== src/Distribute/Placement.antt =====
-- The placing of one target file: atomic, with its mode and owner from the start.
use syscert.Base.{ℕ, refl, ◌≢◌, Option, none, some}
use syscert.Go.Strings.{Str}
use syscert.Go.Filepath.{FilePath, resolve}
use syscert.Os.{Meta, Result, ok, err, Sys, Host}
use syscert.Os.Calls.{chown, or_keep}
use syscert.Os.Triples.{Outcome, Triple, Triple-pure, Triple-wrapping}
use syscert.Atomicfile
use syscert.Atomicfile.{run_prepare}
use syscert.Atomicfile.States.{temp_path, Untouched, Staged, Replaced}
use syscert.Atomicfile.Steps.{update_call}
use syscert.Atomicfile.Atomic.{temp_meta, write-Replaced}
use syscert.Distribute.{chown_to, explained, write_atomic}

-- The mode, and the owner as far as the target names one.
abbrev pub placed_meta : Host → ℕ → Option ℕ → Option ℕ → Meta
placed_meta h mode uid gid = record (temp_meta h) {
  mode = mode;
  uid = or_keep uid h.euid;
  gid = or_keep gid h.egid;
}

module _ (p : FilePath) (s0 : Sys) (n : ℕ) (h : Host) (apart : p ≢ temp_path p n) (content : Str)
    (mode : ℕ) where
  abbrev StagedAs : Meta → Sys → Type 0
  StagedAs = Staged p (temp_path p n) s0 content

  pub chown_prepared :
      (uid gid : Option ℕ)
      → Triple
          (StagedAs (record (temp_meta h) { mode = mode }))
          (run_prepare (chown_to uid gid) (temp_path p n))
          (λ _. StagedAs (placed_meta h mode uid gid))
          (Untouched p (temp_path p n) s0)
  unfolding run_prepare chown_to chown
  chown_prepared none none = Triple-pure tt (λ s g. g)
  chown_prepared (some u) gid = Triple-wrapping _ _ _ (update_call p _ s0 apart _ content _)
  chown_prepared none (some g) = Triple-wrapping _ _ _ (update_call p _ s0 apart _ content _)

explained-Outcome :
    (path : Str) (Q : Sys → Type 0) (E : Sys → Type 0) (r : Result (Unit {0})) (s : Sys)
    → Outcome (λ _. Q) E r s
    → Outcome (λ _. Q) E (explained path r s).0 (explained path r s).1
unfolding explained
explained-Outcome path Q E (ok u) s h = h
explained-Outcome path Q E (err e) s h = h

-- If the target is not the name of the next temporary file: whatever calls fail, placing a target file returns with the content, the mode and
-- the owner that the target asks for, or leaves every file but its temporary one as it was; and
-- nobody meanwhile sees the target with the new content under another mode or owner, or with a part of
-- it.
pub write_atomic_placed :
    (s : Sys) (path content : Str) (mode : ℕ) (uid gid : Option ℕ)
    → resolve path ≢ temp_path (resolve path) s.nonce
    → Outcome
        (λ _.
          Replaced
            (resolve path)
            (temp_path (resolve path) s.nonce)
            s
            content
            (placed_meta s.host mode uid gid))
        (Untouched (resolve path) (temp_path (resolve path) s.nonce) s)
        (write_atomic path content mode uid gid s).0
        (write_atomic path content mode uid gid s).1
unfolding write_atomic
write_atomic_placed s path content mode uid gid apart =
    explained-Outcome path
      (Replaced (resolve path) (temp_path (resolve path) s.nonce) s content
        (placed_meta s.host mode uid gid))
      (Untouched (resolve path) (temp_path (resolve path) s.nonce) s)
      (Atomicfile.write (resolve path) content mode (chown_to uid gid) s).0
      (Atomicfile.write (resolve path) content mode (chown_to uid gid) s).1
      ((write-Replaced (resolve path) s s.nonce s.host apart (chown_to uid gid) content mode _
          (chown_prepared (resolve path) s s.nonce s.host apart content mode uid gid)).at
        s (record { fs = refl; nonce = refl; host = refl; history = refl }))
