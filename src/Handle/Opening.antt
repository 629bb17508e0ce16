-- ===== src/Handle/Opening.antt =====
-- duckdb_driver.c: how `duckdb_handle_factory` ends, and what is alive then.
use pdo_duckdb_php.Common.{
  Bool, true, false, Option, none, some, [], ◌∷◌, ◌≡◌, ◌∙◌, refl, arith, if◌then◌else◌, Bytes,
}
use pdo_duckdb_php.Api.{Duckdb, DuckdbState, success, error}
use pdo_duckdb_php.Trace.{
  HoldsResult, HoldsConfig, HoldsDatabase, HoldsConnection, HoldsLock, HoldsError,
}
use pdo_duckdb_php.Handle.{Link, throw}
use pdo_duckdb_php.Handle.Open.{
  Request, abandon, finish_init, run_init, finish_connect, finish_open, open_database, start_handle,
  duckdb_handle_factory, free_text, note_opened,
}
use pdo_duckdb_php.Handle.Memory.{
  IsClear, IsLinked, IsBusy, run_query-IsBusy, free_result-IsLinked, free_result-attached,
  throw-attached, throw-IsBusy, free_lock-IsClear, duckdb_handle_closer-IsClear,
}

either : {A : Type 0} (P : A → Type 0) (b : Bool) {x y : A} → P x → P y → P (if b then x else y)
either P true p q = p
either P false p q = q

module _ {d : Duckdb} where
  -- How the factory ends, by what it returns.
  abbrev pub Opens : Link d → Bool → Type 0
  Opens n true = IsLinked n × (n.attached ≡ true) × (n.has_methods ≡ true)
  Opens n false = IsClear n.trace × (n.attached ≡ false)

  finish_init-Opens :
      (st : DuckdbState) (l : Link d) (r : d.Result)
      → l.attached ≡ true
      → IsBusy l r
      → Opens (finish_init st l r).0 (finish_init st l r).1
  unfolding finish_init
  finish_init-Opens success l r a v =
      let w = free_result-IsLinked l r v in
      (
        record {
          results = w.results;
          configs = w.configs;
          databases = w.databases;
          connections = w.connections;
          locks = w.locks;
          errors = w.errors;
        },
        free_result-attached l r ∙ a,
        refl,
      )
  finish_init-Opens error l r a v =
      duckdb_handle_closer-IsClear _ (free_result-attached _ r ∙ throw-attached _ l ∙ a)
        (free_result-IsLinked _ r (throw-IsBusy _ l r v))

  run_init-Opens :
      (command : Option Bytes) (l : Link d)
      → l.attached ≡ true
      → IsLinked l
      → Opens (run_init command l).0 (run_init command l).1
  unfolding run_init
  run_init-Opens none l a v = ground arith
  run_init-Opens (some []) l a v = ground arith
  run_init-Opens (some (c ∷ cs)) l a v =
      let (busy, same) = run_query-IsBusy l (c ∷ cs) v in finish_init-Opens _ _ _ (same ∙ a) busy

  abandon-Opens :
      (message : Bytes) (l : Link d)
      → IsLinked l
      → l.conn ≡ none
      → l.db ≡ none
      → Opens (abandon (throw message l)) false
  unfolding abandon throw
  abandon-Opens message l v e f = (free_lock-IsClear _ (ground arith) e f, refl)

  finish_connect-Opens :
      (st : DuckdbState) (command : Option Bytes) (l : Link d) (c : Option d.Connection)
      → l.attached ≡ true
      → IsLinked l
      → l.conn ≡ none
      → Opens (finish_connect st command l c).0 (finish_connect st command l c).1
  unfolding finish_connect
  finish_connect-Opens success command l none a v e = run_init-Opens command _ a (ground arith)
  finish_connect-Opens success command l (some c) a v e = run_init-Opens command _ a (ground arith)
  finish_connect-Opens error command l c a v e = abandon-Opens _ _ (ground arith) e refl

  -- A fresh handle that owns at most its lock, and the text of an error.
  record IsFresh (l : Link d) (err : Option Bytes) : Type 0 where
    results : HoldsResult l.trace none
    configs : HoldsConfig l.trace none
    databases : HoldsDatabase l.trace none
    connections : HoldsConnection l.trace none
    locks : HoldsLock l.trace l.thread_lock
    errors : HoldsError l.trace err
    is_attached : l.attached ≡ true
    no_conn : l.conn ≡ none
    no_db : l.db ≡ none

  start_handle-IsFresh : (l : Link d) → IsClear l.trace → IsFresh (start_handle l) none
  unfolding start_handle
  start_handle-IsFresh l v = ground arith

  open_database-IsFresh :
      (q : Request) (l : Link d)
      → IsFresh l none
      → IsFresh (open_database q l).0 (open_database q l).2.value.1
  unfolding open_database
  open_database-IsFresh q l v = ground arith

  -- The opened database, once the text of an error is freed.
  free_text-IsLinked :
      (err : Option Bytes) (b : Option d.Database) (l : Link d)
      → IsFresh l err
      → let n =
          free_text err (record l { H = record (l.H) { db = b }; trace = note_opened b l.trace }) in
        IsLinked n × (n.conn ≡ none) × (n.attached ≡ true)
  unfolding free_text
  free_text-IsLinked none none l f = ground arith
  free_text-IsLinked none (some b) l f = ground arith
  free_text-IsLinked (some e) none l f = ground arith
  free_text-IsLinked (some e) (some b) l f = ground arith

  free_text-fails :
      (err : Option Bytes) (message : Bytes) (l : Link d)
      → IsFresh l err
      → Opens (abandon (free_text err (throw message l))) false
  unfolding free_text abandon throw
  free_text-fails none message l f = (free_lock-IsClear _ (ground arith) f.no_conn f.no_db, refl)
  free_text-fails (some e) message l f =
      (free_lock-IsClear _ (ground arith) f.no_conn f.no_db, refl)

  finish_open-Opens :
      (st : DuckdbState) (init option : Option Bytes) (l : Link d) (b : Option d.Database)
      (err : Option Bytes)
      → IsFresh l err
      → Opens (finish_open st init option l b err).0 (finish_open st init option l b err).1
  unfolding finish_open
  finish_open-Opens success init option l b err f =
      let (linked, no_conn, is_attached) = free_text-IsLinked err b l f in
      finish_connect-Opens _ _ _ _ is_attached (ground arith) no_conn
  finish_open-Opens error init option l b err f = free_text-fails err _ l f

  pub duckdb_handle_factory-Opens :
      (q : Request) (l : Link d)
      → IsClear l.trace
      → l.attached ≡ false
      → Opens (duckdb_handle_factory q l).0 (duckdb_handle_factory q l).1
  unfolding duckdb_handle_factory
  duckdb_handle_factory-Opens q l v a =
      either (λ (p : Link d × Bool). Opens p.0 p.1) q.is_persistent (ground arith, a)
        (finish_open-Opens _ _ _ _ _ _ (open_database-IsFresh q _ (start_handle-IsFresh l v)))
