-- ===== src/Lib.antt =====
-- SysCert keeps one certificate for a host: it obtains it from an ACME CA, stores it, and delivers
-- copies to the services that use it. The files model its Go code, from the outside in:
--
-- * Command (cmd/syscert/common.go, issue.go, renew.go, distribute.go): a command is a function from
--   the host to an exit code and the host; `provision` is obtain, build, archive, write.
--   Command/Cycle (ensure.go): `ensure_cycle` decides, provisions, delivers and writes the state
--   files. Command/Void (void.go), Command/Teardown (dryrun.go, destroy.go), Command/Grants
--   (systemdpaths.go), Command/Anchors (trust.go) and Command/Report (status.go) are the others;
--   Command/Dispatch (main.go) chooses one, and Command/Flags (common.go) reads their flags.
--   Command/Exit is about exit codes, Command/Provision, Command/Rollout and Command/Renewed about
--   what is on the disk then, Command/Progress and Command/Success about when a cycle succeeds.
-- * Config (internal/config/config.go) and Validate (internal/validate/validate.go): the settings,
--   their defaults and the rules. Validate/Rules states the rules without the code.
-- * Logging (internal/logging/logging.go): the level and the format of the log.
-- * Acme (internal/acme): what is asked of the CA, and the account; Acme/Lego is the production
--   `Obtainer` of lego.go. The ACME library is `Library` and `Lego`, and the CA as the commands see
--   it is `Obtainer`.
-- * Store (internal/store/store.go): the five artifacts; Store/Disk their writing, their archive and
--   their removal. Store/Placing and Store/Progress are about a write that returns, Store/Copies,
--   Store/Snapped, Store/Pruned and Store/Archived about an archive run that does, Store/Retained
--   about the snapshots that stay.
-- * Atomicfile (internal/atomicfile/atomicfile.go): the replacement of one file, on which the store,
--   the deliveries and the state files stand.
-- * Distribute (internal/distribute/distribute.go): the deliveries; Distribute/Served and
--   Distribute/Progress are about those that succeed.
-- * Renewal (internal/renewal/renewal.go), Resolve (internal/resolve/fqdn.go), Interval
--   (cmd/syscert/interval.go): when to renew, for which name, and the loop.
-- * Systemdpaths (cmd/syscert/systemdpaths.go) and Access (cmd/syscert/storeaccess.go and
--   targetaccess.go): the directories that are granted and probed.
-- * Observe (internal/observe/observe.go): the state files; Observe/Files (cmd/syscert/observe.go)
--   their writing.
-- * Envfile (internal/envfile/envfile.go): variables from files, and what the environment keeps.
-- * Trust (internal/trust/trust.go): the anchors of an internal CA in the system's trust store.
-- * Os, Go, Base: the host, the parts of Go's library that the code calls, and shared helpers. Tests
--   has examples.
--
-- Correspondence. A text is a list of bytes. An action is a function from the host `Sys` to a result
-- and a host. Each system call takes the next entry of a list of faults, so a theorem for all hosts
-- holds for all ways in which calls fail, and one with an empty list (Os/Progress) for the host on
-- which none does; `seen` records every file system on the way, which is what
-- another process could have read. A path is the list of the parts of its cleaned text; symbolic
-- links are not modelled. The mode of a file has the permission bits and, above them, the three
-- special bits; `file_mode` is what the number of an os.FileMode makes of it. A `Duration` is an integer number of nanoseconds that saturates or wraps
-- as in Go. Errors keep their format and cause. The clock is a function of the host.
--
-- Fuel. `pem_blocks` has one more unit than the text has bytes, and each PEM block takes at least
-- one byte; so has `ca_name_from`; `itoa` has one more than its number.
--
-- Not modelled: the lines of progress that the commands print, the log lines, the overview of all
-- commands, and the flag package (a command line is a list of flags with their values, and a command
-- takes what they set as `Args`); and what is not in the repository: the ACME
-- library, PEM, X.509 and TOML, which are parameters. The process is alone with its faults: other
-- processes read the files and write none of them.
pub mod Base
pub mod Go
pub mod Config
pub mod Logging
pub mod Validate
pub mod Os
pub mod Atomicfile
pub mod Distribute
pub mod Renewal
pub mod Resolve
pub mod Interval
pub mod Systemdpaths
pub mod Store
pub mod Envfile
pub mod Trust
pub mod Acme
pub mod Observe
pub mod Access
pub mod Command
pub mod Tests
