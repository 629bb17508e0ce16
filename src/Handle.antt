-- ===== src/Handle.antt =====
-- duckdb_driver.c: the connection, but for the text functions (Sql). `Link` is a `pdo_dbh_t` of this
-- driver: the driver's data, the fields that the driver writes, DuckDB's world and the trace. A query
-- goes through `dispatch`, as the source branches on `H->thread_lock`; the other calls of DuckDB here
-- take no lock.
pub mod Config
pub mod Open
pub mod Settings
pub mod Memory
pub mod Opening
pub mod Life
pub mod Transaction
pub mod Attributes
use pdo_duckdb_php.Common.{
  ℕ, Bool, true, false, List, [], ◌∷◌, ◌++◌, Option, none, some, if◌then◌else◌, ◌==◌, Bytes, codes,
  c_str, take, is_null,
}
use pdo_duckdb_php.Common.Int.{ℤ, pos, negsuc, signed64}
use pdo_duckdb_php.Api.{Duckdb, DuckdbState, success, error, Outcome}
use pdo_duckdb_php.Swoole.{dispatch}
use pdo_duckdb_php.Sql.{zstr_strip_zerobytes, zstr_prepare}
use pdo_duckdb_php.Trace.{
  Event, made_result, destroyed_result, made_prepared, destroyed_prepared, disconnected, closed,
  freed_lock, thrown,
}

-- `pdo_duckdb_db_handle`; the `int` flags hold 0 or 1, and `error_msg` the text in its buffer of 256
-- bytes.
pub record DbHandle (d : Duckdb) : Type 0 where
  pub db : Option d.Database
  pub conn : Option d.Connection
  pub attr_flags : ℕ
  pub error_msg : Bytes
  pub auto_commit : Bool
  pub unbuffered : Bool
  pub thread_lock : Option d.Lock

pub record Link (d : Duckdb) : Type 0 where
  pub H : DbHandle d
  pub open H use *
  -- `driver_data` is not NULL, and `methods` has been set.
  pub attached : Bool
  pub has_methods : Bool
  pub error_code : Bytes
  pub world : d.World
  pub trace : List (Event d)

-- The text of an error, or the one that stands for NULL.
abbrev pub text_or : Bytes → Option Bytes → Bytes
text_or default none = default
text_or default (some err) = err

abbrev pub hy000 : Bytes → Bytes
hy000 text = codes "SQLSTATE[HY000]: " ++ text

-- What `snprintf` leaves in `error_msg`: 255 bytes at most, and "unknown error" for no text.
unfoldable pub error_buffer : Option Bytes → Bytes
error_buffer none = codes "unknown error"
error_buffer (some []) = codes "unknown error"
error_buffer (some (c ∷ cs)) = take 255 (c ∷ cs)

module _ {d : Duckdb} where
  -- A statement is run as SQL; its result is the driver's until it is freed.
  unfoldable pub run_query : Link d → Bytes → Link d × Outcome d.Result
  unfolding dispatch
  run_query l sql =
      let (w, r) = dispatch d l.thread_lock (d.query l.conn sql) l.world in
      (record l { world = w; trace = made_result r.value ∷ l.trace }, r)

  unfoldable pub free_result : Link d → d.Result → Link d
  free_result l r = record l {
    world = d.destroy_result r l.world;
    trace = destroyed_result r ∷ l.trace;
  }

  unfoldable pub throw : Bytes → Link d → Link d
  throw message l = record l { trace = thrown message ∷ l.trace }

  -- The failure of a transaction statement: no exception, but the message and the code.
  unfoldable pub note_error : Link d → d.Result → Link d
  note_error l r = record l {
    H = record (l.H) { error_msg = error_buffer (d.result_error r l.world) };
    error_code = codes "HY000";
  }

  -- `duckdb_handle_begin`, `duckdb_handle_commit` and `duckdb_handle_rollback` differ in their SQL.
  unfoldable pub finish_transaction : DuckdbState → Link d → d.Result → Link d × Bool
  finish_transaction success l r = (free_result l r, true)
  finish_transaction error l r = (free_result (note_error l r) r, false)

  unfoldable pub duckdb_handle_begin : Link d → Link d × Bool
  duckdb_handle_begin l =
      let (l, r) = run_query l (codes "BEGIN TRANSACTION") in finish_transaction r.state l r.value

  unfoldable pub duckdb_handle_commit : Link d → Link d × Bool
  duckdb_handle_commit l =
      let (l, r) = run_query l (codes "COMMIT") in finish_transaction r.state l r.value

  unfoldable pub duckdb_handle_rollback : Link d → Link d × Bool
  duckdb_handle_rollback l =
      let (l, r) = run_query l (codes "ROLLBACK") in finish_transaction r.state l r.value

  -- The end of `exec`: the number of rows, or the exception and -1.
  unfoldable pub finish_exec : DuckdbState → Link d → d.Result → Link d × ℤ
  finish_exec success l r = (free_result l r, signed64 (d.rows_changed r l.world))
  finish_exec error l r =
      let message = hy000 (text_or (codes "query error") (d.result_error r l.world)) in
      (free_result (throw message l) r, negsuc 0)

  -- `duckdb_handle_doer`
  unfoldable pub duckdb_handle_doer : Link d → Bytes → Link d × ℤ
  duckdb_handle_doer l sql =
      let (l, r) = run_query l (c_str (zstr_strip_zerobytes sql)) in finish_exec r.state l r.value

  -- `duckdb_handle_last_id`
  unfoldable pub duckdb_handle_last_id : Link d → Bytes
  duckdb_handle_last_id l = codes "0"

  -- `duckdb_fetch_error`: what is appended to PDO's `errorInfo`.
  unfoldable pub duckdb_fetch_error : Link d → ℤ × Bytes
  duckdb_fetch_error l = (
    pos 0,
    if l.attached
        then elim l.error_msg [ [] ↦ codes "no error" | c ∷ cs ↦ c ∷ cs ]
        else codes "no error",
  )

  -- `duckdb_handle_in_transaction`
  unfoldable pub duckdb_handle_in_transaction : Link d → Bool
  duckdb_handle_in_transaction l = d.has_active_transaction l.conn l.world

  -- `duckdb_handle_closer`; the memory of `H` goes back to PHP. `conn`, `db` and `thread_lock` are
  -- freed where they are not NULL.
  unfoldable pub close_conn : Link d → Link d
  close_conn l = elim l.conn [
    | none ↦ l
    | some c ↦ record l {
      H = record (l.H) { conn = none };
      world = d.disconnect c (d.interrupt c l.world);
      trace = disconnected c ∷ l.trace;
    }
  ]

  unfoldable pub close_db : Link d → Link d
  close_db l = elim l.db [
    | none ↦ l
    | some b ↦ record l {
      H = record (l.H) { db = none };
      world = d.close (some b) l.world;
      trace = closed b ∷ l.trace;
    }
  ]

  unfoldable pub free_lock : Link d → Link d
  free_lock l = elim l.thread_lock [
    | none ↦ l
    | some k ↦ record l { world = d.lock_free k l.world; trace = freed_lock k ∷ l.trace }
  ]

  unfoldable pub duckdb_handle_closer : Link d → Link d
  duckdb_handle_closer l =
      if l.attached then record (free_lock (close_db (close_conn l))) { attached = false } else l
