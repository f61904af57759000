-- ===== src/Trust.antt =====
-- internal/trust/trust.go: the anchors of an internal CA in the system's trust store. The command
-- that refreshes the store, strings.ToLower and the X.509 decoder are parameters.
pub mod Anchors
use syscert.Base.{
  ℕ, zero, suc, Bool, true, false, ◌&&◌, ◌||◌, Option, none, some, List, [], ◌∷◌, ◌++◌, length,
  if◌then◌else◌, ◌==◌, leb,
}
use syscert.Go.Strings.{Str, lit, str_eq, has_prefix, trim}
use syscert.Go.Filepath.{FilePath, resolve, in_dir}
use syscert.Go.Sort.{sort}
use syscert.Os.{
  Error, text, wrap, Result, ok, err, Node, directory, Fs, Sys, Exec, ◌>>=◌, ◌>>◌, wrapping, call,
}
use syscert.Os.Calls.{stat, remove, write_file, child_name}
use syscert.Distribute.{is_errno}
use syscert.Store.Disk.{is_not_exist}

unfoldable pub is_alnum : ℕ → Bool
is_alnum c = leb 97 c && leb c 122 || leb 48 c && leb c 57

-- The loop of sanitize; the flag is lastHyphen.
unfoldable pub hyphenate : Bool → Str → Str
unfolding is_alnum
hyphenate last [] = []
hyphenate last (c ∷ s) =
    let kept = hyphenate false s in
    let dash = hyphenate true s in if is_alnum c then c ∷ kept else if last then dash else 45 ∷ dash

abbrev pub is_hyphen : ℕ → Bool
is_hyphen c = c == 45

unfoldable pub sanitize : (Str → Str) → Str → Str
unfolding hyphenate
sanitize to_lower s = trim is_hyphen (hyphenate false (to_lower s))

unfoldable pub anchor_name : Str → Str
anchor_name name = lit "syscert-" ++ (name ++ lit ".crt")

unfoldable pub install : Str → Exec (Unit {0}) → Str → Str → Exec (Unit {0})
unfolding anchor_name
install anchor_dir update name ca_pem = do
  wrapping "write anchor %s: %w" (anchor_dir ∷ anchor_name name ∷ [])
      (write_file (in_dir anchor_dir (anchor_name name)) ca_pem 0o644)
  update

unfoldable pub has_suffix : Str → Str → Bool
has_suffix [] suffix = str_eq [] suffix
has_suffix (c ∷ s) suffix = str_eq (c ∷ s) suffix || has_suffix s suffix

-- The names that the pattern syscert-*.crt matches.
unfoldable pub is_managed : Str → Bool
unfolding has_suffix
is_managed name =
    has_prefix (lit "syscert-") name && has_suffix name (lit ".crt") && leb 12 (length name)

abbrev managed_child : Option Str → List Str → List Str
managed_child none rest = rest
managed_child (some b) rest = if is_managed b then b ∷ rest else rest

unfoldable pub managed_names : FilePath → Fs → List Str
unfolding is_managed
managed_names dir [] = []
managed_names dir ((q, n) ∷ fs) = managed_child (child_name dir q) (managed_names dir fs)

-- filepath.Glob: no names where the directory cannot be read.
unfoldable pub glob : FilePath → Exec (List Str)
unfolding managed_names
glob dir s =
    let (r, s') = call (λ t. (ok (sort (managed_names dir t.fs)), t)) s in
    elim r [ ok names ↦ (ok names, s') | err e ↦ (ok [], s') ]

-- What one call of os.Remove leads to; `next` is the rest of the loop.
abbrev pub after_remove :
    Str → Result (Unit {0}) × Sys → Result (Unit {0}) × Sys → Result (Unit {0}) × Sys
after_remove name (ok u, s) next = next
after_remove name (err e, s) next =
    if is_errno is_not_exist e then next else (err (wrap "remove anchor %s: %w" (name ∷ []) e), s)

unfoldable pub remove_anchors : Str → List Str → Exec (Unit {0})
remove_anchors anchor_dir [] s = (ok tt, s)
remove_anchors anchor_dir (name ∷ names) s =
    let removed = remove (in_dir anchor_dir name) s in
    after_remove name removed (remove_anchors anchor_dir names removed.1)

abbrev refreshed : ℕ → Result (Unit {0}) × Sys → ℕ × Result (Unit {0}) × Sys
refreshed n (r, s) = (n, r, s)

abbrev pub after_anchors :
    Exec (Unit {0}) → List Str → Result (Unit {0}) × Sys → ℕ × Result (Unit {0}) × Sys
after_anchors update names (err e, s) = (0, err e, s)
after_anchors update [] (ok u, s) = (0, ok tt, s)
after_anchors update (name ∷ names) (ok u, s) = refreshed (length (name ∷ names)) (update s)

-- How many anchors were removed.
unfoldable pub remove_managed : Str → Exec (Unit {0}) → Sys → ℕ × Result (Unit {0}) × Sys
unfolding glob remove_anchors
remove_managed anchor_dir update s =
    let (names, s') = matched (glob (resolve anchor_dir) s) in
    after_anchors update names (remove_anchors anchor_dir names s')
  where
    matched : Result (List Str) × Sys → List Str × Sys
    matched (ok names, t) = (names, t)
    matched (err e, t) = ([], t)

-- trust.Manager, with the refresh of the store that its command runs.
pub record Manager : Type 0 where
  pub anchor_dir : Str
  pub update : Exec (Unit {0})

abbrev is_dir_result : Result Node → Bool
is_dir_result (ok (directory m)) = true
is_dir_result _ = false

unfoldable pub dir_exists : Str → Sys → Bool × Sys
dir_exists p s = let (r, s') = stat (resolve p) s in (is_dir_result r, s')

abbrev no_anchor_dir : Error
no_anchor_dir =
    text "no supported CA trust anchor directory found (need Debian/Ubuntu or RHEL family)" []

-- The second directory is looked for only where the first is not there.
unfoldable pub new_manager : (Str → Exec (Unit {0})) → Exec Manager
unfolding dir_exists
new_manager run s =
    let (rhel, s') = dir_exists (lit "/etc/pki/ca-trust/source/anchors") s in
    let (debian, s'') = dir_exists (lit "/usr/local/share/ca-certificates") s' in
    if rhel
    then (
      ok (record {
        anchor_dir = lit "/etc/pki/ca-trust/source/anchors";
        update = run (lit "update-ca-trust extract");
      }),
      s',
    )
    else if debian
    then (
      ok (record {
        anchor_dir = lit "/usr/local/share/ca-certificates";
        update = run (lit "update-ca-certificates");
      }),
      s'',
    )
    else (err no_anchor_dir, s'')

-- What a PEM block is to CAName: its type, its bytes and the rest of the text.
abbrev pub BlockDecoder : Type 0
BlockDecoder = Str → Option (Str × Str × Str)

-- Whether a certificate is one of a CA, and its common name; `none` if it does not parse.
abbrev pub CaParser : Type 0
CaParser = Str → Option (Bool × Str)

abbrev or_ca : Str → Str
or_ca [] = lit "ca"
or_ca (c ∷ s) = c ∷ s

abbrev named : (Str → Str) → Option (Bool × Str) → Result Str → Result Str
named to_lower none next = next
named to_lower (some (false, cn)) next = next
named to_lower (some (true, cn)) next = ok (or_ca (sanitize to_lower cn))

module _ (decode : BlockDecoder) (parse : CaParser) (to_lower : Str → Str) where
  abbrev block_name : Str → Str → Result Str → Result Str
  block_name kind bytes next =
      if str_eq kind (lit "CERTIFICATE") then named to_lower (parse bytes) next else next

  -- The loop over the blocks. Each takes at least one byte, so the length is enough fuel.
  unfoldable pub ca_name_from : ℕ → Str → Result Str
  unfolding sanitize
  ca_name_from zero rest = err (text "no CA certificate found in bundle" [])
  ca_name_from (suc f) rest = elim (decode rest) [
    | none ↦ err (text "no CA certificate found in bundle" [])
    | some (kind, bytes, rest') ↦ block_name kind bytes (ca_name_from f rest')
  ]

  unfoldable pub ca_name : Str → Result Str
  unfolding ca_name_from
  ca_name ca_pem = ca_name_from (suc (length ca_pem)) ca_pem
