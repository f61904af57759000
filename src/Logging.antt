-- ===== src/Logging.antt =====
-- internal/logging/logging.go: the logger that the settings ask for. strings.ToLower and
-- strings.EqualFold are parameters.
use syscert.Base.{Bool, ◌||◌, if◌then◌else◌}
use syscert.Go.Strings.{Str, lit, str_eq}

pub data Level : Type 0 where
  debug info warn error : Level

pub record Logger : Type 0 where
  pub level : Level
  pub json : Bool

module _ (to_lower : Str → Str) where
  unfoldable pub parse_level : Str → Level
  parse_level s =
      let l = to_lower s in
      if str_eq l (lit "debug")
      then debug
      else if str_eq l (lit "warn") || str_eq l (lit "warning")
      then warn
      else if str_eq l (lit "error")
      then error
      else info

  unfoldable pub new : (Str → Str → Bool) → Str → Str → Logger
  unfolding parse_level
  new equal_fold level format = record {
    level = parse_level level;
    json = equal_fold format (lit "json");
  }
