-- ===== src/Statement/Fetch.antt =====
-- duckdb_statement.c: `duckdb_stmt_fetch`, which takes the next row of a result, chunk by chunk.
use Prim.Native.Nat.{ℕ}
use pdo_duckdb_php.Common.{
  ◌+◌, ◌%◌, ◌^◌, Bool, true, false, not, ◌||◌, List, ◌∷◌, ◌++◌, Option, none, some, leb,
  if◌then◌else◌, Bytes, codes, is_null,
}
use pdo_duckdb_php.Api.{Duckdb}
use pdo_duckdb_php.Swoole.{dispatch}
use pdo_duckdb_php.Trace.{Event, made_chunk, thrown}
use pdo_duckdb_php.Statement.{Machine, drop_chunk}

-- An `idx_t` wraps at 2 ^ 64.
abbrev pub inc64 : ℕ → ℕ
inc64 n = (n + 1) % 2 ^ 64

module _ {d : Duckdb} where
  -- Where the next chunk comes from, and the index behind it.
  unfoldable pub next_chunk : Machine d → Machine d × Option d.Chunk
  unfolding dispatch
  next_chunk m =
      if m.is_streaming
      then (let (w, c) = dispatch d m.thread_lock (d.fetch_chunk m.result) m.world in
          (record m { world = w }, c))
      else if leb (d.result_chunk_count m.result m.world) m.next_chunk_index
      then (m, none)
      else (let (w, c) =
            dispatch d m.thread_lock (d.result_get_chunk m.result m.next_chunk_index) m.world in
          (
            record m {
              S = record (m.S) { next_chunk_index = inc64 m.next_chunk_index };
              world = w;
            },
            c,
          ))

  -- An error that the result holds by now is thrown.
  abbrev thrown_error : Option Bytes → List (Event d) → List (Event d)
  thrown_error none t = t
  thrown_error (some err) t = thrown (codes "SQLSTATE[HY000]: " ++ err) ∷ t

  -- What `fetch` does with the chunk that it got.
  unfoldable pub enter_chunk : Machine d → Option d.Chunk → Machine d × Bool
  enter_chunk m none = (
    record m {
      S = record (m.S) { chunk = none; chunk_size = 0; chunk_idx = 0; done = true };
      trace = thrown_error (d.result_error m.result m.world) m.trace;
    },
    false,
  )
  enter_chunk m (some c) = (
    record m {
      S = record (m.S) { chunk = some c; chunk_size = d.data_chunk_get_size c; chunk_idx = 0 };
      trace = made_chunk c ∷ m.trace;
    },
    true,
  )

  -- The rows of the chunk that is left count as consumed.
  unfoldable pub leave_chunk : Machine d → Machine d
  leave_chunk m = elim m.chunk [
    | none ↦ m
    | some c ↦
        drop_chunk
          (record m { S = record (m.S) { total_rows = (m.total_rows + m.chunk_size) % 2 ^ 64 } })
  ]

  -- The next row lies in a chunk that is still to be loaded.
  unfoldable pub load_chunk : Machine d → Machine d × Bool
  load_chunk m = let (m, c) = next_chunk (leave_chunk m) in enter_chunk m c

  -- `S->chunk_idx++`
  unfoldable pub bump : Machine d → Machine d
  bump m = record m { S = record (m.S) { chunk_idx = inc64 m.chunk_idx } }

  -- `duckdb_stmt_fetch`
  unfoldable pub duckdb_stmt_fetch : Machine d → Machine d × Bool
  duckdb_stmt_fetch m =
      if not m.result_set || m.done
      then (m, false)
      else (let m = bump m in
          if is_null m.chunk || leb m.chunk_size m.chunk_idx then load_chunk m else (m, true))
