-- ===== src/Handle/Settings.antt =====
-- `duckdb_handle_factory`: what its loop makes of the configuration that PHP gives.
use mathlib.Core.List.{foldl}
use pdo_duckdb_php.Common.{
  ℕ, ◌+◌, ◌&&◌, ◌==◌, leb, ◌++◌, Bool, true, false, ◌||◌, List, [], ◌∷◌, Option, none, some,
  if◌then◌else◌, Bytes, codes, c_str,
}
use pdo_duckdb_php.Api.{Duckdb}
use pdo_duckdb_php.Handle.Config.{Setting, is_true, is_false, is_other, Settings}

-- Two bytes are the same, or the same letter in another case.
abbrev pub same_letter : ℕ → ℕ → Bool
same_letter c d =
    c == d || leb b'A' c && leb c b'Z' && d == c + 32 || leb b'A' d && leb d b'Z' && c == d + 32

-- Two texts are the same but for the case of their letters.
abbrev pub same_word : Bytes → Bytes → Bool
same_word [] [] = true
same_word (c ∷ s) (d ∷ t) = same_letter c d && same_word s t
same_word _ _ = false

-- An option names the time zone, or one that is to be skipped: as far as its name goes before a NUL.
abbrev pub is_zone : Bytes → Bool
is_zone key = same_word (c_str key) (codes "timezone")

abbrev pub is_skipped : Bytes → Bool
is_skipped key = same_word (c_str key) (codes "force_mbedtls_unsafe")

-- The text of an option's value.
abbrev pub option_text : Setting → Bytes
option_text is_true = codes "true"
option_text is_false = codes "false"
option_text (is_other text) = text

-- An option in front of those that are DuckDB's own.
abbrev keep : Bytes → Bytes → List (Bytes × Bytes) → List (Bytes × Bytes)
keep key text rest = if is_zone key || is_skipped key then rest else (c_str key, c_str text) ∷ rest

-- The options that are DuckDB's own: those with a string key that is neither of the two.
abbrev pub passed : Settings → List (Bytes × Bytes)
passed [] = []
passed ((none, v) ∷ rest) = passed rest
passed ((some key, v) ∷ rest) = keep key (option_text v) (passed rest)

-- A time zone, unless a later one is there.
abbrev newest : Bool → Bytes → Option Bytes → Option Bytes
newest b text (some later) = some later
newest true text none = some text
newest false text none = none

-- The text of the last option that names the time zone.
abbrev pub last_zone : Settings → Option Bytes
last_zone [] = none
last_zone ((none, v) ∷ rest) = last_zone rest
last_zone ((some key, v) ∷ rest) = newest (is_zone key) (option_text v) (last_zone rest)

-- The command with a text between its quotes, as far as it goes before a NUL, or what was there.
abbrev pub zone_text : Bytes → Bytes
zone_text text = codes "SET TimeZone = '" ++ (c_str text ++ codes "'; ")

abbrev pub zone_command : Option Bytes → Option Bytes → Option Bytes
zone_command none init = init
zone_command (some text) init = some (zone_text text)

module _ (d : Duckdb) where
  -- The world after so many options have been set, in order.
  abbrev pub set_all : Option d.Config → d.World → List (Bytes × Bytes) → d.World
  set_all config = foldl (λ w (o : Bytes × Bytes). d.set_config config o.0 o.1 w)

  -- What options and the last time zone make of a world and a command.
  abbrev outcome :
      Option d.Config
      → List (Bytes × Bytes)
      → Option Bytes
      → d.World × Option Bytes
      → d.World × Option Bytes
  outcome config options zone (w, init) = (set_all config w options, zone_command zone init)
