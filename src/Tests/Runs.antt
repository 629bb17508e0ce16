-- ===== src/Tests/Runs.antt =====
-- Runs at the small database: a statement and a connection, from the first call to the last.
use pdo_duckdb_php.Common.{c_str, true, false, [], ◌∷◌, none, some, ◌≡◌, refl, arith, codes}
use pdo_duckdb_php.Common.Int.{pos}
use pdo_duckdb_php.Swoole.{dispatch, thread_lock_new}
use pdo_duckdb_php.Sql.{zstr_prepare}
use pdo_duckdb_php.Trace.{
  made_prepared, opened, connected, made_lock, HoldsResult, HoldsChunk, HoldsPrepared,
}
use pdo_duckdb_php.Handle.{Link, duckdb_handle_begin, duckdb_handle_closer}
use pdo_duckdb_php.Handle.Config.{configure}
use pdo_duckdb_php.Handle.Open.{
  Request, start_handle, open_database, finish_open, finish_connect, run_init, join_init,
  duckdb_handle_factory, free_text,
}
use pdo_duckdb_php.Handle.Memory.{IsClear, IsLinked}
use pdo_duckdb_php.Handle.Attributes.{AttributeValue}
use pdo_duckdb_php.Statement.{
  Machine, duckdb_stmt_execute, duckdb_stmt_cursor_closer, duckdb_stmt_dtor,
}
use pdo_duckdb_php.Statement.Fetch.{duckdb_stmt_fetch}
use pdo_duckdb_php.Statement.Memory.{IsSafe, duckdb_stmt_fetch-IsSafe}
use pdo_duckdb_php.Statement.Chunks.{IsPlaced}
use pdo_duckdb_php.Statement.Rows.{Fetches, duckdb_stmt_fetch-Fetches}
use pdo_duckdb_php.Statement.Reading.{fetch_all, execute_fetch_all}
use pdo_duckdb_php.Statement.Prepare.{
  Prepares, prepared_by, finish_prepare, duckdb_handle_preparer, duckdb_handle_preparer-Prepares,
}
use pdo_duckdb_php.Statement.Life
use pdo_duckdb_php.Statement.Life.{life-frees}
use pdo_duckdb_php.Handle.Life as HandleLife
use pdo_duckdb_php.Handle.Life.{life-IsClear}
use pdo_duckdb_php.Tests.Mock.{mock, delivers, handle}

-- A statement that has been prepared.
abbrev fresh : Machine mock
fresh = record {
  S = record {
    stmt = some 5;
    result = 9;
    chunk = none;
    chunk_idx = 0;
    chunk_size = 0;
    done = false;
    result_set = false;
    is_streaming = false;
    next_chunk_index = 0;
    total_rows = 0;
    thread_lock = some 6;
  };
  attached = true;
  column_count = pos 0;
  row_count = pos 0;
  world = [];
  trace = made_prepared 5 ∷ [];
}

fresh-IsSafe : IsSafe fresh
fresh-IsSafe = record { results = refl; chunks = refl; statements = (refl, refl) }

-- A materialised result of chunks of two rows and one.
abbrev running : Machine mock
running = record fresh {
  S = record {
    stmt = some 5;
    result = 0;
    chunk = none;
    chunk_idx = 0;
    chunk_size = 0;
    done = false;
    result_set = true;
    is_streaming = false;
    next_chunk_index = 0;
    total_rows = 0;
    thread_lock = some 6;
  };
}

running-IsPlaced : IsPlaced delivers running
running-IsPlaced = record { placed = tt; index_le = omega arith }

duckdb_stmt_fetch-Fetches_example :
    Fetches delivers ((1, 0) ∷ (1, 1) ∷ (0, 0) ∷ []) (duckdb_stmt_fetch running)
duckdb_stmt_fetch-Fetches_example = duckdb_stmt_fetch-Fetches delivers running running-IsPlaced

-- A result in two chunks, which the driver asks for as a streamed one where the connection is unbuffered.
execute_fetch_all_example :
    ((duckdb_stmt_execute handle fresh).1 ≡ true)
    × (fetch_all 4 (duckdb_stmt_execute handle fresh).0 ≡ (0, 0) ∷ (1, 0) ∷ (1, 1) ∷ [])
unfolding dispatch
execute_fetch_all_example =
    execute_fetch_all delivers handle fresh 4 refl (omega arith) (omega arith)

duckdb_stmt_fetch-IsSafe_example : IsSafe (duckdb_stmt_fetch fresh).0
duckdb_stmt_fetch-IsSafe_example = duckdb_stmt_fetch-IsSafe fresh fresh-IsSafe

duckdb_handle_preparer-Prepares_example :
    let r = (prepared_by handle (c_str (zstr_prepare (codes "select :a"))) []).1 in
    Prepares r.state r.value
      (duckdb_handle_preparer handle (codes "select :a") [] []).0
      (duckdb_handle_preparer handle (codes "select :a") [] []).1
duckdb_handle_preparer-Prepares_example =
    duckdb_handle_preparer-Prepares handle (codes "select :a") [] [] refl refl refl

-- A connection.
abbrev linked : Link mock
linked = record {
  H = handle;
  attached = true;
  has_methods = true;
  error_code = codes "00000";
  world = [];
  trace = connected 4 ∷ opened 3 ∷ made_lock 6 ∷ [];
}

linked-IsLinked : IsLinked linked
linked-IsLinked = record {
  results = refl;
  configs = refl;
  databases = (refl, refl);
  connections = (refl, refl);
  locks = (refl, refl);
  errors = refl;
}

abbrev request : Request
request = record { is_persistent = false; data_source = codes ":memory:"; driver_options = none }

abbrev unlinked : Link mock
unlinked = record linked { attached = false; has_methods = false; trace = [] }

unlinked-IsClear : IsClear unlinked.trace
unlinked-IsClear = record {
  results = refl;
  configs = refl;
  databases = refl;
  connections = refl;
  locks = refl;
  errors = refl;
}

abbrev truthy : AttributeValue
truthy = record { as_long = pos 2; is_true = true }

-- Prepared, executed, fetched from, closed, executed again and destroyed.
abbrev prepared : Machine mock
prepared = (duckdb_handle_preparer handle (codes "select :a") [] []).0

abbrev executed : Machine mock
executed = (duckdb_stmt_execute handle prepared).0

abbrev read_twice : Machine mock
read_twice = (duckdb_stmt_fetch (duckdb_stmt_fetch executed).0).0

abbrev again : Machine mock
again = (duckdb_stmt_execute handle (duckdb_stmt_cursor_closer read_twice)).0

life-frees_example :
    HoldsResult (duckdb_stmt_dtor again).trace none
    × HoldsChunk (duckdb_stmt_dtor again).trace none
    × HoldsPrepared (duckdb_stmt_dtor again).trace none
    × ((duckdb_stmt_dtor again).attached ≡ false)
unfolding duckdb_handle_preparer finish_prepare dispatch
life-frees_example = life-frees handle (codes "select :a") [] again refl (
    Life.later
      (Life.later
        (Life.later (Life.later (Life.later Life.here (Life.execute handle)) Life.fetch) Life.fetch)
        Life.close_cursor)
      (Life.execute handle))

abbrev opened_link : Link mock
opened_link = (duckdb_handle_factory request unlinked).0

life-IsClear_example :
    IsClear (duckdb_handle_closer (duckdb_handle_begin opened_link).0).trace
    × ((duckdb_handle_closer (duckdb_handle_begin opened_link).0).attached ≡ false)
unfolding duckdb_handle_factory start_handle thread_lock_new open_database configure finish_open
    finish_connect run_init join_init dispatch free_text
life-IsClear_example =
    life-IsClear request unlinked (duckdb_handle_begin opened_link).0 unlinked-IsClear refl refl
      (HandleLife.later HandleLife.here HandleLife.begin)
