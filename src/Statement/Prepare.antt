-- ===== src/Statement/Prepare.antt =====
-- duckdb_driver.c: `duckdb_handle_preparer`, which begins the life of a statement.
use pdo_duckdb_php.Common.{
  Bool, true, false, List, ◌∷◌, Option, none, some, ◌≡◌, refl, Bytes, codes, c_str,
}
use pdo_duckdb_php.Common.Int.{pos}
use pdo_duckdb_php.Api.{Duckdb, DuckdbState, success, error, Outcome}
use pdo_duckdb_php.Swoole.{dispatch}
use pdo_duckdb_php.Sql.{zstr_prepare}
use pdo_duckdb_php.Trace.{Event, HoldsResult, HoldsChunk, HoldsPrepared, made_prepared, thrown}
use pdo_duckdb_php.Handle.{DbHandle}
use pdo_duckdb_php.Statement.{Stmt, Machine, error_text, drop_prepared}
use pdo_duckdb_php.Statement.Memory.{IsSafe}

module _ {d : Duckdb} where
  -- `ecalloc` and the assignments behind it.
  abbrev pub new_stmt : DbHandle d → Stmt d
  new_stmt H = record {
    stmt = none;
    result = d.no_result;
    chunk = none;
    chunk_idx = 0;
    chunk_size = 0;
    done = false;
    result_set = false;
    is_streaming = false;
    next_chunk_index = 0;
    total_rows = 0;
    thread_lock = H.thread_lock;
  }

  abbrev pub note_prepared : Option d.Prepared → List (Event d) → List (Event d)
  note_prepared none t = t
  note_prepared (some p) t = made_prepared p ∷ t

  -- On failure the exception is thrown, the statement freed, and `driver_data` is NULL again.
  unfoldable pub finish_prepare : DuckdbState → Machine d → Machine d × Bool
  finish_prepare success m = (m, true)
  finish_prepare error m =
      let err : Option Bytes = elim m.stmt [ none ↦ none | some p ↦ d.prepare_error p m.world ] in
      let thrown_at = record m {
        trace = thrown (error_text (codes "prepare error") err) ∷ m.trace;
      } in
      (record (drop_prepared thrown_at) { attached = false }, false)

  -- `duckdb_handle_preparer`
  unfoldable pub duckdb_handle_preparer :
      DbHandle d → Bytes → d.World → List (Event d) → Machine d × Bool
  duckdb_handle_preparer H sql world trace =
      let (w, r) = dispatch d H.thread_lock (d.prepare H.conn (c_str (zstr_prepare sql))) world in
      finish_prepare r.state (record {
        S = record (new_stmt H) { stmt = r.value };
        attached = true;
        column_count = pos 0;
        row_count = pos 0;
        world = w;
        trace = note_prepared r.value trace;
      })

  -- How a preparation ends, by DuckDB's answer.
  abbrev pub Prepares : DuckdbState → Option d.Prepared → Machine d → Bool → Type 0
  Prepares success p m done =
      (done ≡ true)
      × (m.stmt ≡ p)
      × IsSafe m
      × (m.attached ≡ true)
      × (m.result_set ≡ false)
      × (m.chunk ≡ none)
  Prepares error p m done =
      (done ≡ false)
      × HoldsResult m.trace none
      × HoldsChunk m.trace none
      × HoldsPrepared m.trace none
      × (m.attached ≡ false)

  -- What DuckDB answers to SQL.
  abbrev pub prepared_by : DbHandle d → Bytes → d.World → d.World × Outcome (Option d.Prepared)
  prepared_by H text w = dispatch d H.thread_lock (d.prepare H.conn text) w

  fresh-Prepares :
      (H : DbHandle d) (p : Option d.Prepared) (w : d.World) (t : List (Event d)) (st : DuckdbState)
      → HoldsResult t none
      → HoldsChunk t none
      → HoldsPrepared t none
      → let m : Machine d = record {
        S = record (new_stmt H) { stmt = p };
        attached = true;
        column_count = pos 0;
        row_count = pos 0;
        world = w;
        trace = note_prepared p t;
      } in
        Prepares st p (finish_prepare st m).0 (finish_prepare st m).1
  unfolding finish_prepare drop_prepared
  fresh-Prepares H none w t success r c p =
      (refl, refl, record { results = r; chunks = c; statements = p }, refl, refl, refl)
  fresh-Prepares H (some q) w t success r c p =
      (refl, refl, record { results = r; chunks = c; statements = (p, refl) }, refl, refl, refl)
  fresh-Prepares H none w t error r c p = (refl, r, c, p, refl)
  fresh-Prepares H (some q) w t error r c p = (refl, r, c, ((p, refl), refl), refl)

  pub Prepares-IsSafe :
      (st : DuckdbState) (p : Option d.Prepared) (m : Machine d) (done : Bool)
      → Prepares st p m done
      → done ≡ true
      → IsSafe m × (m.attached ≡ true)
  Prepares-IsSafe success p m done (e, s, safe, a, set, chunk) h = (safe, a)
  Prepares-IsSafe error p m done (e, results, chunks, statements, free) h = cc (e, h)

  -- A preparation that DuckDB accepts returns true and leaves a statement that holds and owns what DuckDB
  -- prepared of the rewritten SQL, and no result; one that DuckDB refuses returns false and leaves nothing
  -- alive, whether or not DuckDB gave a statement to read the error from.
  pub duckdb_handle_preparer-Prepares :
      (H : DbHandle d) (sql : Bytes) (w : d.World) (t : List (Event d))
      → HoldsResult t none
      → HoldsChunk t none
      → HoldsPrepared t none
      → let r = (prepared_by H (c_str (zstr_prepare sql)) w).1 in
        Prepares r.state r.value
          (duckdb_handle_preparer H sql w t).0
          (duckdb_handle_preparer H sql w t).1
  unfolding duckdb_handle_preparer
  duckdb_handle_preparer-Prepares H sql w t r c p = fresh-Prepares H _ _ t _ r c p
