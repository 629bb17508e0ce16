-- ===== src/Extension.antt =====
-- pdo_duckdb.c: the start, the stop and the information page of the module. A function pointer is
-- `native`, with a number for the function of PHP or of another module, or one of this module's handlers.
pub mod Handlers
mod Tests
use pdo_duckdb_php.Common.{
  ℕ, ◌+◌, Bool, true, false, not, List, [], ◌∷◌, Option, none, some, if◌then◌else◌, is_null, Bytes,
  codes,
}

pub data Pointer : Type 0 where
  native : ℕ → Pointer
  execute_override bind_value_override bind_param_override : Pointer

-- The handlers of `execute`, `bindvalue` and `bindparam` in PDO's class of statements, as far as its
-- table has these functions.
pub record Table : Type 0 where
  pub execute : Option Pointer
  pub bind_value : Option Pointer
  pub bind_param : Option Pointer

-- `PDO_ATTR_DRIVER_SPECIFIC`, and the attributes of the driver behind it.
abbrev pub attr_driver_specific : ℕ
attr_driver_specific = 1000

abbrev pub attr_unbuffered : ℕ
attr_unbuffered = attr_driver_specific

abbrev pub attr_config : ℕ
attr_config = attr_driver_specific + 1

abbrev pub attr_init_command : ℕ
attr_init_command = attr_driver_specific + 2

-- What the module touches of the process: two variables of the environment, PDO's list of drivers,
-- DuckDB's instance cache, the constants of the class PDO, the table of handlers, if the class is there,
-- and the three pointers that the module keeps. `Cache` is DuckDB's type.
pub record Process (Cache : Type 0) : Type 0 where
  pub query_farm_opt_out : Option Bytes
  pub datazoo_disable : Option Bytes
  pub registered : Bool
  pub cache : Option Cache
  pub constants : List (Bytes × ℕ)
  pub table : Option Table
  pub original_execute : Option Pointer
  pub original_bind_value : Option Pointer
  pub original_bind_param : Option Pointer

-- `if (!getenv(…)) setenv(…, "1", 0)`
abbrev pub set_unless : Option Bytes → Option Bytes
set_unless none = some (codes "1")
set_unless (some v) = some v

-- A function that the table has gets the handler of this module; one that is missing stays missing.
abbrev pub replaced : Option Pointer → Pointer → Option Pointer
replaced none h = none
replaced (some f) h = some h

-- The pointer that is kept: the handler that was there, or what was kept before.
abbrev pub saved : Option Pointer → Option Pointer → Option Pointer
saved none kept = kept
saved (some f) kept = some f

module _ {Cache : Type 0} where
  unfoldable pub opt_out : Process Cache → Process Cache
  opt_out p = record p {
    query_farm_opt_out = set_unless p.query_farm_opt_out;
    datazoo_disable = set_unless p.datazoo_disable;
  }

  unfoldable pub declare_constants : Process Cache → Process Cache
  declare_constants p = record p {
    constants =
        (codes "DUCKDB_ATTR_INIT_COMMAND", attr_init_command)
        ∷ (codes "DUCKDB_ATTR_CONFIG", attr_config)
        ∷ (codes "DUCKDB_ATTR_UNBUFFERED", attr_unbuffered)
        ∷ p.constants;
  }

  unfoldable pub install_handlers : Process Cache → Process Cache
  install_handlers p = elim p.table [
    | none ↦ p
    | some t ↦ record p {
      table = some (record {
        execute = replaced t.execute execute_override;
        bind_value = replaced t.bind_value bind_value_override;
        bind_param = replaced t.bind_param bind_param_override;
      });
      original_execute = saved t.execute p.original_execute;
      original_bind_value = saved t.bind_value p.original_bind_value;
      original_bind_param = saved t.bind_param p.original_bind_param;
    }
  ]

  -- `PHP_MINIT_FUNCTION`: what PDO answers to the registration, and the cache that DuckDB makes.
  unfoldable pub minit : Bool → Option Cache → Process Cache → Process Cache × Bool
  minit false made p = (opt_out p, false)
  minit true made p = (
    install_handlers (declare_constants (record (opt_out p) { registered = true; cache = made })),
    true,
  )

  -- `PHP_MSHUTDOWN_FUNCTION`: the cache that is freed. The handlers stay where they are.
  unfoldable pub mshutdown : Process Cache → Process Cache × Option Cache
  mshutdown p = (record p { registered = false; cache = none }, p.cache)

-- The rows of `PHP_MINFO_FUNCTION`: whether the module `swoole` is there, and whether its symbols were
-- found at load time.
unfoldable pub minfo : Bytes → Bool → Bool → List (Bytes × Bytes)
minfo version swoole_module swoole_loaded =
    (codes "PDO Driver for DuckDB", codes "enabled")
    ∷ (codes "DuckDB Library Version", version)
    ∷ (
      codes "Swoole",
      if swoole_module
          then (if swoole_loaded then codes "OK" else codes "FAIL: loaded after pdo_duckdb")
          else codes "no",
    )
    ∷ []
