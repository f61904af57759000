-- ===== src/Atomicfile.antt =====
-- internal/atomicfile/atomicfile.go: a temporary file in the same directory, renamed into place.
pub mod States
pub mod Steps
pub mod Renames
pub mod Atomic
pub mod Names
pub mod Holds
pub mod Progress
pub mod Returns
pub mod Updates
use syscert.Base.{ℕ, Option, none, some}
use syscert.Go.Strings.{Str, lit}
use syscert.Go.Filepath.{FilePath}
use syscert.Os.{Result, ok, err, Exec, pure, ◌>>=◌, ◌>>◌, parent}
use syscert.Os.Calls.{create_temp, write_open, close, chmod, rename, remove, deferring}

abbrev pub Prepare : Type 0
Prepare = Option (FilePath → Exec (Unit {0}))

abbrev pub close_on_error : FilePath → Result (Unit {0}) → Exec (Unit {0})
close_on_error tmp (ok u) s = (ok u, s)
close_on_error tmp (err e) s = (err e, (close tmp s).1)

-- The file is closed where the write fails, and the write's error is returned.
unfoldable pub write_or_close : FilePath → Str → Exec (Unit {0})
write_or_close tmp content s = let (r, s') = write_open tmp content s in close_on_error tmp r s'

unfoldable pub run_prepare : Prepare → FilePath → Exec (Unit {0})
run_prepare none tmp = pure tt
run_prepare (some f) tmp = f tmp

unfoldable pub fill_and_rename : FilePath → FilePath → Str → ℕ → Prepare → Exec (Unit {0})
unfolding write_or_close run_prepare
fill_and_rename tmp path content mode prepare = do
  write_or_close tmp content
  close tmp
  chmod tmp mode
  run_prepare prepare tmp
  rename tmp path

unfoldable pub write : FilePath → Str → ℕ → Prepare → Exec (Unit {0})
unfolding fill_and_rename
write path content mode prepare = do
  tmp ← create_temp (parent path) (lit ".syscert-") (lit ".tmp")
  deferring (remove tmp) (fill_and_rename tmp path content mode prepare)
