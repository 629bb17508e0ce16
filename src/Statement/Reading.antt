-- ===== src/Statement/Reading.antt =====
-- duckdb_statement.c: a statement that is executed and then fetched until the end, as PDO's `fetchAll` does.
use mathlib.Core.Path.{subst}
use Prim.Native.Nat.{zero-le}
use pdo_duckdb_php.Common.{
  ◌^◌, ◌==◌, ℕ, suc, zero, ◌<◌, true, false, Option, none, some, List, [], ◌∷◌, ◌≡◌, refl, ap,
  arith, if◌then◌else◌, length,
}
use pdo_duckdb_php.Common.Int.{is_zero, signed32}
use pdo_duckdb_php.Api.{Duckdb, success, Outcome}
use pdo_duckdb_php.Handle.{DbHandle}
use pdo_duckdb_php.Statement.Answers.{answer, execute-answer}
use pdo_duckdb_php.Statement.{
  put_result, Machine, finish_execute, execute_started, duckdb_stmt_execute,
}
use pdo_duckdb_php.Statement.Fetch.{duckdb_stmt_fetch}
use pdo_duckdb_php.Statement.Chunks.{Delivers, rows_of, pending, IsPlaced}
use pdo_duckdb_php.Statement.Rows.{Fetches, duckdb_stmt_fetch-Fetches}

-- The row under the cursor in front of others.
abbrev with_row : {C : Type 0} → Option C → ℕ → List (C × ℕ) → List (C × ℕ)
with_row none i rows = rows
with_row (some c) i rows = (c, i) ∷ rows

module _ {d : Duckdb} where
  -- The rows that a caller sees who fetches until the end, at most as many as the fuel.
  pub fetch_all : ℕ → Machine d → List (d.Chunk × ℕ)
  fetch_all zero m = []
  fetch_all (suc fuel) m = elim (duckdb_stmt_fetch m).1 [
    | true ↦
        with_row (duckdb_stmt_fetch m).0.chunk (duckdb_stmt_fetch m).0.chunk_idx
          (fetch_all fuel (duckdb_stmt_fetch m).0)
    | false ↦ []
  ]

module _ {d : Duckdb} (v : Delivers d) where
  fetch_all_upto :
      (fuel : ℕ) (m : Machine d) (rows : List (d.Chunk × ℕ))
      → pending v m ≡ rows
      → length rows < fuel
      → IsPlaced v m
      → fetch_all fuel m ≡ rows
  unfolding fetch_all
  fetch_all_upto zero m rows e h p = absurd (omega arith)
  fetch_all_upto (suc fuel) m [] e h p =
      let f = subst (λ s. Fetches v s (duckdb_stmt_fetch m)) e (duckdb_stmt_fetch-Fetches v m p) in
      rw (f.0, fetch_all)
  fetch_all_upto (suc fuel) m ((c, i) ∷ rows) e h p =
      let f = subst (λ s. Fetches v s (duckdb_stmt_fetch m)) e (duckdb_stmt_fetch-Fetches v m p) in
      rw (f.0, f.1, f.2, fetch_all)
        (ap (◌∷◌ (c, i)) (fetch_all_upto fuel (duckdb_stmt_fetch m).0 rows f.3 (omega arith) f.4))

  -- The rows of a result, as DuckDB has it in a world: none for a result without columns.
  abbrev pub result_rows : d.Result → d.World → List (d.Chunk × ℕ)
  result_rows r w =
      if d.column_count r w == 0
      then []
      else rows_of d.data_chunk_get_size
          (if d.result_is_streaming r w then v.left r w else v.chunks r)

  started_rows :
      (m : Machine d) (w : d.World) (r : d.Result)
      → d.column_count r w < 2 ^ 31
      → let n = (finish_execute success (put_result m w r)).0 in
        IsPlaced v n × (pending v n ≡ result_rows r w)
  unfolding finish_execute execute_started put_result
  started_rows m w r h =
      let count : is_zero (signed32 (d.column_count r w)) ≡ (d.column_count r w == 0) =
        ground arith in
      (record { placed = tt; index_le = zero-le }, rw count)

  started_true :
      (m : Machine d) (w : d.World) (r : d.Result)
      → (finish_execute success (put_result m w r)).1 ≡ true
  unfolding finish_execute execute_started
  started_true m w r = refl

  answered_rows :
      (m : Machine d) (p : d.World × Outcome d.Result) (fuel : ℕ)
      → p.1.state ≡ success
      → d.column_count p.1.value p.0 < 2 ^ 31
      → length (result_rows p.1.value p.0) < fuel
      → let n = finish_execute p.1.state (put_result m p.0 p.1.value) in
        (n.1 ≡ true) × (fetch_all fuel n.0 ≡ result_rows p.1.value p.0)
  answered_rows m p fuel e c h =
      let (placed, rows) = started_rows m p.0 p.1.value c in
      rw e (started_true m p.0 p.1.value, fetch_all_upto fuel _ _ rows h placed)

  -- An execution to which DuckDB answers with success returns true, and fetches until the end then read
  -- the rows of the result that DuckDB gave, in order, each once, and end, whatever the statement did
  -- before: those of a streamed result or of a materialised one, as DuckDB says which it is, and none if
  -- it has no columns. The number of columns fits in an `int`.
  pub execute_fetch_all :
      (H : DbHandle d) (m : Machine d) (fuel : ℕ)
      → (answer H m).1.state ≡ success
      → d.column_count (answer H m).1.value (answer H m).0 < 2 ^ 31
      → length (result_rows (answer H m).1.value (answer H m).0) < fuel
      → ((duckdb_stmt_execute H m).1 ≡ true)
        × (fetch_all fuel (duckdb_stmt_execute H m).0
            ≡ result_rows (answer H m).1.value (answer H m).0)
  execute_fetch_all H m fuel e c h =
      rw (execute-answer H m) (answered_rows _ (answer H m) fuel e c h)
