-- ===== src/Statement.antt =====
-- duckdb_statement.c: the life of a statement. `Stmt` is the driver's data of a `PDOStatement`; `Machine` holds
-- it with the fields of PDO's `pdo_stmt_t` that the driver writes, DuckDB's world and the trace.
pub mod Fetch
pub mod Answers
pub mod Memory
pub mod Chunks
pub mod Rows
pub mod Reading
pub mod Prepare
pub mod Life
use Prim.Native.Nat.{ℕ}
use pdo_duckdb_php.Common.{
  ◌+◌, ◌%◌, ◌^◌, Bool, true, false, not, ◌||◌, List, ◌∷◌, ◌++◌, Option, none, some, leb,
  if◌then◌else◌, Bytes, codes, is_null,
}
use pdo_duckdb_php.Common.Int.{ℤ, pos, signed32, signed64, is_zero}
use pdo_duckdb_php.Api.{Duckdb, DuckdbState, success, error, Outcome}
use pdo_duckdb_php.Swoole.{dispatch}
use pdo_duckdb_php.Trace.{
  Event, made_result, destroyed_result, made_chunk, destroyed_chunk, destroyed_prepared, thrown,
}
use pdo_duckdb_php.Handle.{DbHandle}

-- `pdo_duckdb_stmt`; a NULL `chunk` or `stmt` is `none`, and `result` counts while `result_set` holds.
pub record Stmt (d : Duckdb) : Type 0 where
  pub stmt : Option d.Prepared
  pub result : d.Result
  pub chunk : Option d.Chunk
  pub chunk_idx : ℕ
  pub chunk_size : ℕ
  pub done : Bool
  pub result_set : Bool
  pub is_streaming : Bool
  pub next_chunk_index : ℕ
  pub total_rows : ℕ
  pub thread_lock : Option d.Lock

pub record Machine (d : Duckdb) : Type 0 where
  pub S : Stmt d
  pub open S use *
  -- `driver_data` is not NULL.
  pub attached : Bool
  pub column_count : ℤ
  pub row_count : ℤ
  pub world : d.World
  pub trace : List (Event d)

-- The message of an exception, with the text that stands for a NULL error.
abbrev pub error_text : Bytes → Option Bytes → Bytes
error_text default none = codes "SQLSTATE[HY000]: " ++ default
error_text default (some err) = codes "SQLSTATE[HY000]: " ++ err

module _ {d : Duckdb} where
  -- `if (S->result_set) { duckdb_destroy_result(&S->result); S->result_set = 0; }`
  unfoldable pub drop_result : Machine d → Machine d
  drop_result m =
      if m.result_set
      then record m {
        S = record (m.S) { result_set = false };
        world = d.destroy_result m.result m.world;
        trace = destroyed_result m.result ∷ m.trace;
      }
      else m

  -- `if (S->chunk) { duckdb_destroy_data_chunk(&S->chunk); S->chunk = NULL; }`
  unfoldable pub drop_chunk : Machine d → Machine d
  drop_chunk m = elim m.chunk [
    | none ↦ m
    | some c ↦ record m {
      S = record (m.S) { chunk = none };
      world = d.destroy_data_chunk c m.world;
      trace = destroyed_chunk c ∷ m.trace;
    }
  ]

  -- The call that runs the statement, by the connection's mode; under its lock, where it has one.
  unfoldable pub run_prepared :
      DbHandle d → Option d.Prepared → d.World → d.World × Outcome d.Result
  run_prepared H p w =
      if H.unbuffered
      then dispatch d H.thread_lock (d.execute_prepared_streaming p) w
      else dispatch d H.thread_lock (d.execute_prepared p) w

  -- The failed execution: the error is thrown, and the result that holds it is freed.
  unfoldable pub execute_failed : Machine d → Machine d × Bool
  execute_failed m =
      let message = error_text (codes "execute error") (d.result_error m.result m.world) in
      (
        record m {
          world = d.destroy_result m.result m.world;
          trace = destroyed_result m.result ∷ thrown message ∷ m.trace;
        },
        false,
      )

  -- The successful execution: the cursor stands before the first row.
  unfoldable pub execute_started : Machine d → Machine d × Bool
  execute_started m =
      let count = signed32 (d.column_count m.result m.world) in
      (
        record m {
          S = record (m.S) {
            result_set = true;
            done = is_zero count;
            is_streaming = d.result_is_streaming m.result m.world;
            next_chunk_index = 0;
            chunk = none;
            chunk_idx = 0;
            chunk_size = 0;
            total_rows = 0;
          };
          column_count = count;
          row_count = signed64 (d.rows_changed m.result m.world);
        },
        true,
      )

  -- The call writes the result into `S->result`.
  unfoldable pub put_result : Machine d → d.World → d.Result → Machine d
  put_result m w r = record m {
    S = record (m.S) { result = r };
    world = w;
    trace = made_result r ∷ m.trace;
  }

  unfoldable pub finish_execute : DuckdbState → Machine d → Machine d × Bool
  finish_execute success m = execute_started m
  finish_execute error m = execute_failed m

  -- `duckdb_stmt_execute`
  unfoldable pub duckdb_stmt_execute : DbHandle d → Machine d → Machine d × Bool
  duckdb_stmt_execute H m =
      let m = drop_chunk (drop_result m) in
      let (w, r) = run_prepared H m.stmt m.world in finish_execute r.state (put_result m w r.value)

  -- `duckdb_stmt_cursor_closer`; PDO drops the described columns.
  unfoldable pub duckdb_stmt_cursor_closer : Machine d → Machine d
  duckdb_stmt_cursor_closer m =
      let closed = if m.attached then drop_result (drop_chunk m) else m in
      record closed { column_count = pos 0 }

  -- `if (S->stmt) { duckdb_destroy_prepare(&S->stmt); S->stmt = NULL; }`
  unfoldable pub drop_prepared : Machine d → Machine d
  drop_prepared m = elim m.stmt [
    | none ↦ m
    | some p ↦ record m {
      S = record (m.S) { stmt = none };
      world = d.destroy_prepare p m.world;
      trace = destroyed_prepared p ∷ m.trace;
    }
  ]

  -- `duckdb_stmt_dtor`; the memory of `S` goes back to PHP.
  unfoldable pub duckdb_stmt_dtor : Machine d → Machine d
  duckdb_stmt_dtor m =
      if m.attached
      then record (drop_prepared (drop_result (drop_chunk m))) { attached = false }
      else m
