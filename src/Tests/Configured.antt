-- ===== src/Tests/Configured.antt =====
-- Opening with a configuration: the time zone twice, an option of DuckDB, one that is skipped, and one
-- without a name. The small database notes the length of each name that is set.
use pdo_duckdb_php.Common.{[], ◌∷◌, none, some, ◌≡◌, refl, codes, c_str, length, bytes_eq, false}
use pdo_duckdb_php.Api.{Duckdb}
use pdo_duckdb_php.Handle.{Link}
use pdo_duckdb_php.Handle.Config.{
  Settings, is_true, is_other, timezone_command, strcasecmp_eq, to_lower,
}
use pdo_duckdb_php.Handle.Open.{Request}
use pdo_duckdb_php.Handle.Settings.{passed, last_zone, zone_command, set_all}
use pdo_duckdb_php.Tests.Mock.{mock}

abbrev noting : Duckdb
noting = record mock { set_config = λ c name text w. length name ∷ w }

abbrev settings : Settings
settings =
    (some (codes "TimeZone"), is_other (codes "CET"))
    ∷ (some (codes "threads"), is_other (codes "4"))
    ∷ (none, is_true)
    ∷ (some (codes "force_mbedtls_unsafe"), is_true)
    ∷ (some (codes "timezone"), is_other (codes "UTC"))
    ∷ []

abbrev request : Request
request = record {
  is_persistent = false;
  data_source = codes ":memory:";
  driver_options = some (record { config = some settings; init_command = none });
}

abbrev unlinked : Link noting
unlinked = record {
  H = record {
    db = none;
    conn = none;
    attr_flags = 0;
    error_msg = [];
    auto_commit = false;
    unbuffered = false;
    thread_lock = none;
  };
  attached = false;
  has_methods = false;
  error_code = [];
  world = [];
  trace = [];
}

zone_run : zone_command (last_zone settings) none ≡ some (codes "SET TimeZone = 'UTC'; ")
unfolding strcasecmp_eq to_lower bytes_eq c_str timezone_command
zone_run = refl

-- The names "async_threads" and "threads" have been set.
set_run :
    set_all noting (some 7) [] ((codes "async_threads", codes "0") ∷ passed settings) ≡ 7 ∷ 13 ∷ []
unfolding strcasecmp_eq to_lower bytes_eq c_str
set_run = refl
