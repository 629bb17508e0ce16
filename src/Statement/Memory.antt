-- ===== src/Statement/Memory.antt =====
-- duckdb_statement.c: what a statement owns of DuckDB, as its trace tells it.
use pdo_duckdb_php.Common.{
  refl, Bool, true, false, Option, none, some, ◌≡◌, ◌∙◌, arith, if◌then◌else◌,
}
use pdo_duckdb_php.Api.{Duckdb, DuckdbState, success, error, Outcome}
use pdo_duckdb_php.Trace.{HoldsResult, HoldsChunk, HoldsPrepared}
use pdo_duckdb_php.Handle.{DbHandle}
use pdo_duckdb_php.Statement.{
  Machine, put_result, finish_execute, drop_result, drop_chunk, drop_prepared, execute_failed,
  execute_started, duckdb_stmt_execute, duckdb_stmt_cursor_closer, duckdb_stmt_dtor,
}
use pdo_duckdb_php.Statement.Answers.{answer, freed-stmt, execute-answer, Ends, Executed}
use pdo_duckdb_php.Statement.Fetch.{
  bump, next_chunk, enter_chunk, leave_chunk, load_chunk, duckdb_stmt_fetch,
}

-- What a pointer or struct holds while its flag is set.
abbrev pub held : {A : Type 0} → Bool → A → Option A
held b a = if b then some a else none

module _ {d : Duckdb} where
  -- The trace leaves alive what the statement holds, and nothing else.
  pub record IsSafe (m : Machine d) : Type 0 where
    pub results : HoldsResult m.trace (held m.result_set m.result)
    pub chunks : HoldsChunk m.trace m.chunk
    pub statements : HoldsPrepared m.trace m.stmt

  drop_result-IsSafe : (m : Machine d) → IsSafe m → IsSafe (drop_result m)
  unfolding drop_result
  drop_result-IsSafe m v = ground arith

  drop_chunk-IsSafe : (m : Machine d) → IsSafe m → IsSafe (drop_chunk m)
  unfolding drop_chunk
  drop_chunk-IsSafe m v = ground arith

  drop_chunk-none : (m : Machine d) → (drop_chunk m).chunk ≡ none
  unfolding drop_chunk
  drop_chunk-none m = ground arith

  drop_result-false : (m : Machine d) → (drop_result m).result_set ≡ false
  unfolding drop_result
  drop_result-false m = ground arith

  drop_result-chunk : (m : Machine d) → (drop_result m).chunk ≡ m.chunk
  unfolding drop_result
  drop_result-chunk m = ground arith

  drop-stmt : (m : Machine d) → (drop_result (drop_chunk m)).stmt ≡ m.stmt
  unfolding drop_result drop_chunk
  drop-stmt m = ground arith

  drop_chunk-result_set : (m : Machine d) → (drop_chunk m).result_set ≡ m.result_set
  unfolding drop_chunk
  drop_chunk-result_set m = ground arith

  -- The statement owns no result and no chunk.
  record IsIdle (m : Machine d) : Type 0 where
    safe : IsSafe m
    no_set : m.result_set ≡ false
    no_chunk : m.chunk ≡ none

  idle_results : (m : Machine d) → IsIdle m → HoldsResult m.trace none
  idle_results m i = ground (arith, i.safe.results)

  idle_chunks : (m : Machine d) → IsIdle m → HoldsChunk m.trace none
  idle_chunks m i = ground (arith, i.safe.chunks)

  drop-IsIdle : (m : Machine d) → IsSafe m → IsIdle (drop_chunk (drop_result m))
  drop-IsIdle m v = record {
    safe = drop_chunk-IsSafe _ (drop_result-IsSafe m v);
    no_set = drop_chunk-result_set (drop_result m) ∙ drop_result-false m;
    no_chunk = drop_chunk-none (drop_result m);
  }

  close-IsIdle : (m : Machine d) → IsSafe m → IsIdle (drop_result (drop_chunk m))
  close-IsIdle m v = record {
    safe = drop_result-IsSafe _ (drop_chunk-IsSafe m v);
    no_set = drop_result-false (drop_chunk m);
    no_chunk = drop_result-chunk (drop_chunk m) ∙ drop_chunk-none m;
  }

  drop_prepared-frees :
      (m : Machine d)
      → IsIdle m
      → HoldsResult (drop_prepared m).trace none
        × HoldsChunk (drop_prepared m).trace none
        × HoldsPrepared (drop_prepared m).trace none
  unfolding drop_prepared
  drop_prepared-frees m v = ground arith

  finish_execute-IsSafe :
      (m : Machine d) (w : d.World) (r : d.Result) (st : DuckdbState)
      → IsIdle m
      → let p = finish_execute st (put_result m w r) in
        IsSafe p.0 × (p.0.result_set ≡ p.1) × (p.0.chunk ≡ none)
  unfolding finish_execute put_result execute_failed execute_started
  finish_execute-IsSafe m w r success v = ground arith
  finish_execute-IsSafe m w r error v = ground arith

  finish_execute-Ends :
      (st : DuckdbState) (m : Machine d) (w : d.World) (v : d.Result)
      → IsIdle m
      → let p = finish_execute st (put_result m w v) in Ends st v w m.trace p.0 p.1
  unfolding finish_execute put_result execute_failed execute_started
  finish_execute-Ends success m w v i = (refl, refl, refl, refl)
  finish_execute-Ends error m w v i = (refl, i.no_set, refl)

  finish_execute-stmt :
      (st : DuckdbState) (m : Machine d) (w : d.World) (v : d.Result)
      → (finish_execute st (put_result m w v)).0.stmt ≡ m.stmt
  unfolding finish_execute put_result execute_failed execute_started
  finish_execute-stmt success m w v = refl
  finish_execute-stmt error m w v = refl

  finish_execute-Executed :
      (m : Machine d) (p : d.World × Outcome d.Result)
      → IsIdle m
      → Executed p (finish_execute p.1.state (put_result m p.0 p.1.value))
  finish_execute-Executed m p i =
      (m.trace, idle_results m i, idle_chunks m i, finish_execute-Ends p.1.state m p.0 p.1.value i)

  pub duckdb_stmt_execute-IsSafe :
      (H : DbHandle d) (m : Machine d)
      → IsSafe m
      → IsSafe (duckdb_stmt_execute H m).0
        × ((duckdb_stmt_execute H m).0.result_set ≡ (duckdb_stmt_execute H m).1)
        × ((duckdb_stmt_execute H m).0.chunk ≡ none)
        × ((duckdb_stmt_execute H m).0.stmt ≡ m.stmt)
        × Executed (answer H m) (duckdb_stmt_execute H m)
  duckdb_stmt_execute-IsSafe H m v =
      let i = drop-IsIdle m v in
      let (w, r) = answer H m in
      let (safe, set, chunk) =
        finish_execute-IsSafe (drop_chunk (drop_result m)) w r.value r.state i in
      rw (execute-answer H m) (
        safe,
        set,
        chunk,
        finish_execute-stmt r.state _ w r.value ∙ freed-stmt m,
        finish_execute-Executed _ (answer H m) i,
      )

  leave_chunk-IsSafe :
      (m : Machine d) → IsSafe m → IsSafe (leave_chunk m) × ((leave_chunk m).chunk ≡ none)
  unfolding leave_chunk drop_chunk
  leave_chunk-IsSafe m v = ground arith

  next_chunk-IsSafe :
      (m : Machine d)
      → IsSafe m
      → m.chunk ≡ none
      → IsSafe (next_chunk m).0 × ((next_chunk m).0.chunk ≡ none)
  unfolding next_chunk
  next_chunk-IsSafe m v e = ground arith

  enter_chunk-IsSafe :
      (m : Machine d) (c : Option d.Chunk) → m.chunk ≡ none → IsSafe m → IsSafe (enter_chunk m c).0
  unfolding enter_chunk
  enter_chunk-IsSafe m c e v = ground arith

  load_chunk-IsSafe : (m : Machine d) → IsSafe m → IsSafe (load_chunk m).0
  unfolding load_chunk
  load_chunk-IsSafe m v =
      let (v', e) = leave_chunk-IsSafe m v in
      let (v'', e') = next_chunk-IsSafe (leave_chunk m) v' e in enter_chunk-IsSafe _ _ e' v''

  bump-IsSafe : (m : Machine d) → IsSafe m → IsSafe (bump m)
  unfolding bump
  bump-IsSafe m v = ground arith

  -- A fetch frees the chunk that it leaves, and owns the one that it enters, on every branch.
  pub duckdb_stmt_fetch-IsSafe : (m : Machine d) → IsSafe m → IsSafe (duckdb_stmt_fetch m).0
  unfolding duckdb_stmt_fetch
  duckdb_stmt_fetch-IsSafe m v =
      ground (arith, load_chunk-IsSafe (bump m) (bump-IsSafe m v), bump-IsSafe m v)

  -- Closing the cursor of a statement frees its chunk and its result and keeps the prepared statement.
  pub duckdb_stmt_cursor_closer-IsSafe :
      (m : Machine d)
      → m.attached ≡ true
      → IsSafe m
      → IsSafe (duckdb_stmt_cursor_closer m)
        × ((duckdb_stmt_cursor_closer m).result_set ≡ false)
        × ((duckdb_stmt_cursor_closer m).chunk ≡ none)
        × ((duckdb_stmt_cursor_closer m).stmt ≡ m.stmt)
  unfolding duckdb_stmt_cursor_closer
  duckdb_stmt_cursor_closer-IsSafe m a v = ground (arith, close-IsIdle m v, drop-stmt m)

  -- The destructor frees whatever the statement still owns: the chunk, the result and the prepared
  -- statement, each once.
  pub duckdb_stmt_dtor-frees :
      (m : Machine d)
      → m.attached ≡ true
      → IsSafe m
      → HoldsResult (duckdb_stmt_dtor m).trace none
        × HoldsChunk (duckdb_stmt_dtor m).trace none
        × HoldsPrepared (duckdb_stmt_dtor m).trace none
        × ((duckdb_stmt_dtor m).attached ≡ false)
  unfolding duckdb_stmt_dtor
  duckdb_stmt_dtor-frees m a v = ground (arith, drop_prepared-frees _ (close-IsIdle m v))
