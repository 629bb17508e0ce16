-- ===== src/Statement/Life.antt =====
-- The whole life of a statement: what PDO may call between preparation and destruction, in any order.
use pdo_duckdb_php.Common.{true, false, [], Option, none, some, ◌≡◌, ◌∙◌, refl, arith, Bytes}
use pdo_duckdb_php.Api.{Duckdb, DuckdbState, success, error}
use pdo_duckdb_php.Trace.{HoldsResult, HoldsChunk, HoldsPrepared}
use pdo_duckdb_php.Handle.{DbHandle}
use pdo_duckdb_php.Statement.{
  Machine, duckdb_stmt_execute, duckdb_stmt_cursor_closer, duckdb_stmt_dtor, drop_result,
  drop_chunk, execute_started, execute_failed, finish_execute, put_result,
}
use pdo_duckdb_php.Statement.Fetch.{
  duckdb_stmt_fetch, next_chunk, enter_chunk, leave_chunk, load_chunk, bump,
}
use pdo_duckdb_php.Statement.Memory.{
  IsSafe, duckdb_stmt_execute-IsSafe, duckdb_stmt_fetch-IsSafe, duckdb_stmt_cursor_closer-IsSafe,
  duckdb_stmt_dtor-frees,
}
use pdo_duckdb_php.Statement.Prepare.{
  Prepares-IsSafe, duckdb_handle_preparer, duckdb_handle_preparer-Prepares,
}

module _ {d : Duckdb} where
  -- One call of PDO on a statement, with the connection as it then is; or anything that others do to
  -- what is behind DuckDB.
  pub data Step (m : Machine d) : Machine d → Type 0 where
    execute : (H : DbHandle d) → Step m (duckdb_stmt_execute H m).0
    fetch : Step m (duckdb_stmt_fetch m).0
    close_cursor : Step m (duckdb_stmt_cursor_closer m)
    elsewhere : (w : d.World) → Step m (record m { world = w })

  pub data Steps (m : Machine d) : Machine d → Type 0 where
    here : Steps m m
    later : {n n' : Machine d} → Steps m n → Step n n' → Steps m n'

  -- The statement is PDO's and owns what it holds.
  pub record IsAlive (m : Machine d) : Type 0 where
    pub safe : IsSafe m
    pub is_attached : m.attached ≡ true

  drop_result-attached : (m : Machine d) → (drop_result m).attached ≡ m.attached
  unfolding drop_result
  drop_result-attached m = ground arith

  drop_chunk-attached : (m : Machine d) → (drop_chunk m).attached ≡ m.attached
  unfolding drop_chunk
  drop_chunk-attached m = ground arith

  finish_execute-attached :
      (st : DuckdbState) (m : Machine d) (w : d.World) (r : d.Result)
      → (finish_execute st (put_result m w r)).0.attached ≡ m.attached
  unfolding finish_execute execute_started execute_failed put_result
  finish_execute-attached success m w r = refl
  finish_execute-attached error m w r = refl

  execute-attached :
      (H : DbHandle d) (m : Machine d) → (duckdb_stmt_execute H m).0.attached ≡ m.attached
  unfolding duckdb_stmt_execute
  execute-attached H m =
      finish_execute-attached _ (drop_chunk (drop_result m)) _ _
      ∙ drop_chunk-attached (drop_result m)
      ∙ drop_result-attached m

  leave_chunk-attached : (m : Machine d) → (leave_chunk m).attached ≡ m.attached
  unfolding leave_chunk drop_chunk
  leave_chunk-attached m = ground arith

  next_chunk-attached : (m : Machine d) → (next_chunk m).0.attached ≡ m.attached
  unfolding next_chunk
  next_chunk-attached m = ground arith

  enter_chunk-attached :
      (m : Machine d) (c : Option d.Chunk) → (enter_chunk m c).0.attached ≡ m.attached
  unfolding enter_chunk
  enter_chunk-attached m none = refl
  enter_chunk-attached m (some c) = refl

  load_chunk-attached : (m : Machine d) → (load_chunk m).0.attached ≡ m.attached
  unfolding load_chunk
  load_chunk-attached m =
      enter_chunk-attached (next_chunk (leave_chunk m)).0 _
      ∙ next_chunk-attached (leave_chunk m)
      ∙ leave_chunk-attached m

  bump-attached : (m : Machine d) → (bump m).attached ≡ m.attached
  unfolding bump
  bump-attached m = refl

  fetch-attached : (m : Machine d) → (duckdb_stmt_fetch m).0.attached ≡ m.attached
  unfolding duckdb_stmt_fetch
  fetch-attached m = ground (arith, load_chunk-attached (bump m), bump-attached m)

  closer-attached : (m : Machine d) → (duckdb_stmt_cursor_closer m).attached ≡ m.attached
  unfolding duckdb_stmt_cursor_closer drop_result drop_chunk
  closer-attached m = ground arith

  Step-IsAlive : {m n : Machine d} → Step m n → IsAlive m → IsAlive n
  Step-IsAlive {m} (execute H) a = record {
    safe = (duckdb_stmt_execute-IsSafe H m a.safe).0;
    is_attached = execute-attached H m ∙ a.is_attached;
  }
  Step-IsAlive {m} fetch a = record {
    safe = duckdb_stmt_fetch-IsSafe m a.safe;
    is_attached = fetch-attached m ∙ a.is_attached;
  }
  Step-IsAlive {m} close_cursor a = record {
    safe = (duckdb_stmt_cursor_closer-IsSafe m a.is_attached a.safe).0;
    is_attached = closer-attached m ∙ a.is_attached;
  }
  Step-IsAlive (elsewhere w) a = record {
    safe = record {
      results = a.safe.results;
      chunks = a.safe.chunks;
      statements = a.safe.statements;
    };
    is_attached = a.is_attached;
  }

  Steps-IsAlive : {m n : Machine d} → Steps m n → IsAlive m → IsAlive n
  Steps-IsAlive here a = a
  Steps-IsAlive (later r st) a = Step-IsAlive st (Steps-IsAlive r a)

  -- A statement whose preparation succeeded has, once it is destroyed, freed every result, chunk and
  -- prepared statement that it ever came to own, each once, whatever PDO called in between and in
  -- whatever order, whatever DuckDB answered, and whatever others did meanwhile.
  pub life-frees :
      (H : DbHandle d) (sql : Bytes) (w : d.World) (m : Machine d)
      → (duckdb_handle_preparer H sql w []).1 ≡ true
      → Steps (duckdb_handle_preparer H sql w []).0 m
      → HoldsResult (duckdb_stmt_dtor m).trace none
        × HoldsChunk (duckdb_stmt_dtor m).trace none
        × HoldsPrepared (duckdb_stmt_dtor m).trace none
        × ((duckdb_stmt_dtor m).attached ≡ false)
  life-frees H sql w m e r =
      let (safe, is_attached) =
        Prepares-IsSafe _ _ _ _ (duckdb_handle_preparer-Prepares H sql w [] refl refl refl) e in
      let a = Steps-IsAlive r (record { safe = safe; is_attached = is_attached }) in
      duckdb_stmt_dtor-frees m a.is_attached a.safe
