-- ===== src/Handle/Open.antt =====
-- duckdb_driver.c: `duckdb_handle_factory`, which opens a connection, behind its configuration (Config).
use pdo_duckdb_php.Common.{
  Bool, true, false, List, [], ◌∷◌, ◌++◌, Option, none, some, if◌then◌else◌, Bytes, codes, c_str,
  bytes_eq,
}
use pdo_duckdb_php.Api.{Duckdb, DuckdbState, success, error, Outcome}
use pdo_duckdb_php.Swoole.{dispatch, thread_lock_new}
use pdo_duckdb_php.Sql.{zstr_strip_zerobytes}
use pdo_duckdb_php.Trace.{
  Event, made_lock, made_config, destroyed_config, made_error, freed_error, opened, closed,
  connected, thrown,
}
use pdo_duckdb_php.Handle.{
  DbHandle, Link, run_query, free_result, throw, text_or, hy000, free_lock, duckdb_handle_closer,
}
use pdo_duckdb_php.Handle.Config.{Options, config_of, init_of, configure}

-- What PDO hands to the factory.
pub record Request : Type 0 where
  pub is_persistent : Bool
  pub data_source : Bytes
  pub driver_options : Option Options

-- The init command: what the time zone has set, then the option.
unfoldable pub join_init : Option Bytes → Option Bytes → Option Bytes
join_init command none = command
join_init none (some s) = some (c_str (zstr_strip_zerobytes s))
join_init (some c) (some s) = some (c ++ c_str (zstr_strip_zerobytes s))

-- `init_command && strlen(init_command) > 0`
abbrev pub has_text : Option Bytes → Bool
has_text none = false
has_text (some []) = false
has_text (some (c ∷ cs)) = true

-- `(strcmp(dbname, ":memory:") == 0) ? NULL : dbname`
unfoldable pub path_of : Bytes → Option Bytes
path_of dbname = if bytes_eq dbname (codes ":memory:") then none else some dbname

module _ {d : Duckdb} where
  -- `ecalloc` and the new lock.
  abbrev pub new_handle : Option d.Lock → DbHandle d
  new_handle lock = record {
    db = none;
    conn = none;
    attr_flags = 0;
    error_msg = [];
    auto_commit = false;
    unbuffered = false;
    thread_lock = lock;
  }

  -- Both failures before the connection stands: the lock and the handle are freed.
  unfoldable pub abandon : Link d → Link d
  abandon l = record (free_lock l) { attached = false }

  -- The trace of an opened database or of a connection, where the call gave one.
  abbrev pub note_opened : Option d.Database → List (Event d) → List (Event d)
  note_opened none t = t
  note_opened (some b) t = opened b ∷ t

  abbrev pub note_closed : Option d.Database → List (Event d) → List (Event d)
  note_closed none t = t
  note_closed (some b) t = closed b ∷ t

  -- The text of an error that came with the answer, which the driver has to free.
  abbrev pub note_text : Option Bytes → List (Event d) → List (Event d)
  note_text none t = t
  note_text (some err) t = made_error err ∷ t

  -- `if (err) duckdb_free(err)`
  unfoldable pub free_text : Option Bytes → Link d → Link d
  free_text none l = l
  free_text (some err) l = record l {
    world = d.free_error err l.world;
    trace = freed_error err ∷ l.trace;
  }

  abbrev pub note_connected : Option d.Connection → List (Event d) → List (Event d)
  note_connected none t = t
  note_connected (some c) t = connected c ∷ t

  -- The init command has run.
  unfoldable pub finish_init : DuckdbState → Link d → d.Result → Link d × Bool
  finish_init success l r = (record (free_result l r) { has_methods = true }, true)
  finish_init error l r =
      let text = text_or (codes "unknown error") (d.result_error r l.world) in
      let l = free_result (throw (hy000 (codes "Could not execute init command: " ++ text)) l) r in
      (duckdb_handle_closer l, false)

  unfoldable pub run_init : Option Bytes → Link d → Link d × Bool
  run_init command l =
      if has_text command
      then (let (l, r) = run_query l (text_or [] command) in finish_init r.state l r.value)
      else (record l { has_methods = true }, true)

  -- `duckdb_connect` has answered.
  unfoldable pub finish_connect :
      DuckdbState → Option Bytes → Link d → Option d.Connection → Link d × Bool
  finish_connect success command l c =
      run_init command
        (record l { H = record (l.H) { conn = c }; trace = note_connected c l.trace })
  finish_connect error command l c =
      let l = record l {
        H = record (l.H) { db = none };
        world = d.close l.db l.world;
        trace = note_closed l.db l.trace;
      } in
      (abandon (throw (hy000 (codes "Could not create DuckDB connection")) l), false)

  -- The database has been opened, or not.
  unfoldable pub finish_open :
      DuckdbState
      → Option Bytes
      → Option Bytes
      → Link d
      → Option d.Database
      → Option Bytes
      → Link d × Bool
  finish_open success init option l b err =
      let l =
        free_text err (record l { H = record (l.H) { db = b }; trace = note_opened b l.trace }) in
      let (w, r) = dispatch d l.thread_lock (d.connect l.db) l.world in
      finish_connect r.state (join_init init option) (record l { world = w }) r.value
  finish_open error init option l b err =
      let text = text_or (codes "unknown error") err in
      let l = free_text err (throw (hy000 (codes "Could not open DuckDB database: " ++ text)) l) in
      (abandon l, false)

  -- The configuration is made, filled and, behind the opening, freed.
  unfoldable pub open_database :
      Request → Link d → Link d × Option Bytes × Outcome (Option d.Database × Option Bytes)
  open_database q l =
      let (w, config) = d.create_config l.world in
      let w = d.set_config config (codes "async_threads") (codes "0") w in
      let (w, init) = configure d config (config_of q.driver_options) (w, none) in
      let (w, r) =
        dispatch d l.thread_lock (d.get_or_create_from_cache (path_of (c_str q.data_source)) config)
          w in
      elim config [
        | none ↦ (record l { world = w; trace = note_text r.value.1 l.trace }, init, r)
        | some c ↦ (
          record l {
            world = d.destroy_config c w;
            trace = destroyed_config c ∷ note_text r.value.1 (made_config c ∷ l.trace);
          },
          init,
          r,
        )
      ]

  -- The handle that the factory begins with.
  unfoldable pub start_handle : Link d → Link d
  start_handle l =
      let (w, lock) = thread_lock_new d l.world in
      record l {
        H = new_handle lock;
        attached = true;
        world = w;
        trace = elim lock [ none ↦ l.trace | some k ↦ made_lock k ∷ l.trace ];
      }

  -- `duckdb_handle_factory`
  unfoldable pub duckdb_handle_factory : Request → Link d → Link d × Bool
  duckdb_handle_factory q l =
      if q.is_persistent
      then (
        record l {
          trace =
              thrown (codes "SQLSTATE[IM001]: pdo_duckdb does not support persistent connections")
              ∷ l.trace;
        },
        false,
      )
      else (let (l, init, r) = open_database q (start_handle l) in
          finish_open r.state init (init_of q.driver_options) l r.value.0 r.value.1)
