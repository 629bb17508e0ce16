-- ===== src/Statement/Answers.antt =====
-- duckdb_statement.c: what DuckDB answers to an execution, and how the execution ends by it.
use pdo_duckdb_php.Common.{
  List, ◌∷◌, codes, Bool, true, false, none, some, ◌≡◌, arith, if◌then◌else◌,
}
use pdo_duckdb_php.Api.{Duckdb, DuckdbState, success, error, Outcome}
use pdo_duckdb_php.Swoole.{dispatch}
use pdo_duckdb_php.Trace.{Event, made_result, destroyed_result, thrown, HoldsResult, HoldsChunk}
use pdo_duckdb_php.Handle.{DbHandle}
use pdo_duckdb_php.Statement.{
  error_text, run_prepared, Machine, put_result, finish_execute, drop_result, drop_chunk,
  duckdb_stmt_execute,
}

module _ {d : Duckdb} where
  -- The world in which a statement is executed: the result and the chunk before are freed.
  abbrev freed_world : Machine d → d.World
  freed_world m =
      let w = if m.result_set then d.destroy_result m.result m.world else m.world in
      elim m.chunk [ none ↦ w | some c ↦ d.destroy_data_chunk c w ]

  -- What DuckDB answers when it is given the statement, in the mode of the connection.
  abbrev pub answer : DbHandle d → Machine d → d.World × Outcome d.Result
  answer H m =
      if H.unbuffered
      then dispatch d H.thread_lock (d.execute_prepared_streaming m.stmt) (freed_world m)
      else dispatch d H.thread_lock (d.execute_prepared m.stmt) (freed_world m)

  freed-world : (m : Machine d) → (drop_chunk (drop_result m)).world ≡ freed_world m
  unfolding drop_chunk drop_result
  freed-world m = ground arith

  pub freed-stmt : (m : Machine d) → (drop_chunk (drop_result m)).stmt ≡ m.stmt
  unfolding drop_chunk drop_result
  freed-stmt m = ground arith

  pub execute-answer :
      (H : DbHandle d) (m : Machine d)
      → duckdb_stmt_execute H m
        ≡ finish_execute
            (answer H m).1.state
            (put_result (drop_chunk (drop_result m)) (answer H m).0 (answer H m).1.value)
  unfolding duckdb_stmt_execute run_prepared
  execute-answer H m = rw (freed-stmt m, freed-world m, duckdb_stmt_execute)

  abbrev pub Ends : DuckdbState → d.Result → d.World → List (Event d) → Machine d → Bool → Type 0
  Ends success v w t n done =
      (done ≡ true) × (n.result_set ≡ true) × (n.result ≡ v) × (n.trace ≡ made_result v ∷ t)
  Ends error v w t n done =
      (done ≡ false)
      × (n.result_set ≡ false)
      × (n.trace
          ≡ destroyed_result v
            ∷ thrown (error_text (codes "execute error") (d.result_error v w))
            ∷ made_result v
            ∷ t)

  -- How an execution ends by DuckDB's answer: the trace, behind one that leaves no result and no chunk
  -- alive, has the new result, which the statement keeps or has freed; and what the call returns.
  abbrev pub Executed : d.World × Outcome d.Result → Machine d × Bool → Type 0
  Executed (w, r) (n, done) =
      (t : List (Event d)) × HoldsResult t none
      × HoldsChunk t none
      × Ends r.state r.value w t n done
