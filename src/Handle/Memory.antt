-- ===== src/Handle/Memory.antt =====
-- duckdb_driver.c: what a connection owns of DuckDB, as its trace tells it.
use pdo_duckdb_php.Common.{true, false, none, some, List, ◌≡◌, refl, arith, Bytes}
use pdo_duckdb_php.Api.{Duckdb, DuckdbState, success, error}
use pdo_duckdb_php.Trace.{
  Event, HoldsResult, HoldsConfig, HoldsDatabase, HoldsConnection, HoldsLock, HoldsError,
}
use pdo_duckdb_php.Handle.{
  Link, run_query, free_result, note_error, finish_transaction, finish_exec, throw, close_conn,
  close_db, free_lock, duckdb_handle_begin, duckdb_handle_commit, duckdb_handle_rollback,
  duckdb_handle_doer, duckdb_handle_closer,
}

module _ {d : Duckdb} where
  -- The trace leaves nothing of the connection alive.
  pub record IsClear (t : List (Event d)) : Type 0 where
    pub results : HoldsResult t none
    pub configs : HoldsConfig t none
    pub databases : HoldsDatabase t none
    pub connections : HoldsConnection t none
    pub locks : HoldsLock t none
    pub errors : HoldsError t none

  -- The trace leaves alive what the handle holds, and nothing else.
  pub record IsLinked (l : Link d) : Type 0 where
    pub results : HoldsResult l.trace none
    pub configs : HoldsConfig l.trace none
    pub databases : HoldsDatabase l.trace l.db
    pub connections : HoldsConnection l.trace l.conn
    pub locks : HoldsLock l.trace l.thread_lock
    pub errors : HoldsError l.trace none

  -- The same while a result is the driver's.
  pub record IsBusy (l : Link d) (r : d.Result) : Type 0 where
    pub results : HoldsResult l.trace (some r)
    pub configs : HoldsConfig l.trace none
    pub databases : HoldsDatabase l.trace l.db
    pub connections : HoldsConnection l.trace l.conn
    pub locks : HoldsLock l.trace l.thread_lock
    pub errors : HoldsError l.trace none

  pub run_query-IsBusy :
      (l : Link d) (sql : Bytes)
      → IsLinked l
      → IsBusy (run_query l sql).0 (run_query l sql).1.value
        × ((run_query l sql).0.attached ≡ l.attached)
  unfolding run_query
  run_query-IsBusy l sql v = ground arith

  pub free_result-IsLinked : (l : Link d) (r : d.Result) → IsBusy l r → IsLinked (free_result l r)
  unfolding free_result
  free_result-IsLinked l r v = ground arith

  pub free_result-attached : (l : Link d) (r : d.Result) → (free_result l r).attached ≡ l.attached
  unfolding free_result
  free_result-attached l r = refl

  pub throw-attached : (message : Bytes) (l : Link d) → (throw message l).attached ≡ l.attached
  unfolding throw
  throw-attached message l = refl

  pub throw-IsBusy :
      (message : Bytes) (l : Link d) (r : d.Result) → IsBusy l r → IsBusy (throw message l) r
  unfolding throw
  throw-IsBusy message l r v = ground arith

  finish_transaction-IsLinked :
      (st : DuckdbState) (l : Link d) (r : d.Result)
      → IsBusy l r
      → IsLinked (finish_transaction st l r).0
  unfolding finish_transaction note_error free_result
  finish_transaction-IsLinked success l r v = ground arith
  finish_transaction-IsLinked error l r v = ground arith

  finish_exec-IsLinked :
      (st : DuckdbState) (l : Link d) (r : d.Result) → IsBusy l r → IsLinked (finish_exec st l r).0
  unfolding finish_exec free_result throw
  finish_exec-IsLinked success l r v = ground arith
  finish_exec-IsLinked error l r v = ground arith

  -- Each call that runs SQL frees the result, on success and on failure, and touches nothing else that
  -- the connection holds.
  pub queries-IsLinked :
      (l : Link d) (sql : Bytes)
      → IsLinked l
      → IsLinked (duckdb_handle_doer l sql).0
        × IsLinked (duckdb_handle_begin l).0
        × IsLinked (duckdb_handle_commit l).0
        × IsLinked (duckdb_handle_rollback l).0
  unfolding duckdb_handle_doer duckdb_handle_begin duckdb_handle_commit duckdb_handle_rollback
  queries-IsLinked l sql v = (
    finish_exec-IsLinked _ _ _ (run_query-IsBusy l _ v).0,
    finish_transaction-IsLinked _ _ _ (run_query-IsBusy l _ v).0,
    finish_transaction-IsLinked _ _ _ (run_query-IsBusy l _ v).0,
    finish_transaction-IsLinked _ _ _ (run_query-IsBusy l _ v).0,
  )

  close_conn-IsLinked :
      (l : Link d) → IsLinked l → IsLinked (close_conn l) × ((close_conn l).conn ≡ none)
  unfolding close_conn
  close_conn-IsLinked l v = ground arith

  close_db-IsLinked :
      (l : Link d)
      → IsLinked l
      → l.conn ≡ none
      → IsLinked (close_db l) × ((close_db l).db ≡ none) × ((close_db l).conn ≡ none)
  unfolding close_db
  close_db-IsLinked l v e = ground arith

  pub free_lock-IsClear :
      (l : Link d) → IsLinked l → l.conn ≡ none → l.db ≡ none → IsClear (free_lock l).trace
  unfolding free_lock
  free_lock-IsClear l v e f = ground arith

  -- The closer frees the connection, the database and the lock, each once.
  pub duckdb_handle_closer-IsClear :
      (l : Link d)
      → l.attached ≡ true
      → IsLinked l
      → IsClear (duckdb_handle_closer l).trace × ((duckdb_handle_closer l).attached ≡ false)
  unfolding duckdb_handle_closer
  duckdb_handle_closer-IsClear l a v =
      let (v', e) = close_conn-IsLinked l v in
      let (v'', f, e') = close_db-IsLinked (close_conn l) v' e in
      let clear = free_lock-IsClear _ v'' e' f in ground (arith, clear)
