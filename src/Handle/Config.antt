-- ===== src/Handle/Config.antt =====
-- duckdb_driver.c: the configuration of a connection, in `duckdb_handle_factory`. An option is `true`,
-- `false` or has the text that `zval_get_string` gives.
use Prim.Native.Nat.{ℕ}
use mathlib.Core.List.{map}
use pdo_duckdb_php.Common.{
  ◌+◌, Bool, ◌&&◌, List, [], ◌∷◌, ◌++◌, Option, none, some, if◌then◌else◌, leb, Bytes, codes, c_str,
  bytes_eq,
}
use pdo_duckdb_php.Api.{Duckdb}

pub data Setting : Type 0 where
  is_true is_false : Setting
  is_other : Bytes → Setting

-- A key is `none` where it is an integer.
abbrev pub Settings : Type 0
Settings = List (Option Bytes × Setting)

-- The driver options: `PDO_DUCKDB_ATTR_CONFIG` where it is an array, `PDO_DUCKDB_ATTR_INIT_COMMAND`
-- where it is a string.
pub record Options : Type 0 where
  pub config : Option Settings
  pub init_command : Option Bytes

unfoldable pub to_lower : ℕ → ℕ
to_lower c = if leb b'A' c && leb c b'Z' then c + 32 else c

-- `strcasecmp(a, b) == 0`
unfoldable pub strcasecmp_eq : Bytes → Bytes → Bool
unfolding to_lower bytes_eq
strcasecmp_eq a b = bytes_eq (map to_lower (c_str a)) (map to_lower (c_str b))

abbrev pub setting_text : Setting → Bytes
setting_text is_true = codes "true"
setting_text is_false = codes "false"
setting_text (is_other s) = s

-- `sprintf(init_command, "SET TimeZone = '%s'; ", …)`, and the size of its buffer.
unfoldable pub timezone_command : Bytes → Bytes
timezone_command s = codes "SET TimeZone = '" ++ (c_str s ++ codes "'; ")

abbrev pub timezone_capacity : ℕ → ℕ
timezone_capacity len = len + 20

abbrev pub config_of : Option Options → Option Settings
config_of none = none
config_of (some o) = o.config

abbrev pub init_of : Option Options → Option Bytes
init_of none = none
init_of (some o) = o.init_command

module _ (d : Duckdb) where
  -- One option with a string key: it sets the time zone, is skipped, or goes to DuckDB.
  unfoldable pub apply_setting :
      Option d.Config → Bytes → Bytes → d.World × Option Bytes → d.World × Option Bytes
  apply_setting config key text (w, init) =
      if strcasecmp_eq key (codes "timezone")
      then (w, some (timezone_command text))
      else if strcasecmp_eq key (codes "force_mbedtls_unsafe")
      then (w, init)
      else (d.set_config config (c_str key) (c_str text) w, init)

  -- The loop over the configuration.
  unfoldable pub apply_settings :
      Option d.Config → Settings → d.World × Option Bytes → d.World × Option Bytes
  apply_settings config [] s = s
  apply_settings config ((none, v) ∷ rest) s = apply_settings config rest s
  apply_settings config ((some key, v) ∷ rest) s =
      apply_settings config rest (apply_setting config key (setting_text v) s)

  -- The loop is entered for an array and a configuration that DuckDB has made.
  unfoldable pub configure :
      Option d.Config → Option Settings → d.World × Option Bytes → d.World × Option Bytes
  configure none settings s = s
  configure (some c) none s = s
  configure (some c) (some settings) s = apply_settings (some c) settings s
