-- ===== src/Handle/Life.antt =====
-- The whole life of a connection: what PDO may call between opening and closing, in any order.
use pdo_duckdb_php.Common.{true, false, [], ◌≡◌, ◌∙◌, refl, arith, Bytes}
use mathlib.Core.Path.{subst}
use pdo_duckdb_php.Api.{Duckdb, DuckdbState, success, error}
use pdo_duckdb_php.Handle.{
  Link, run_query, free_result, note_error, finish_transaction, finish_exec, throw,
  duckdb_handle_begin, duckdb_handle_commit, duckdb_handle_rollback, duckdb_handle_doer,
  duckdb_handle_closer,
}
use pdo_duckdb_php.Handle.Open.{Request, duckdb_handle_factory}
use pdo_duckdb_php.Handle.Opening.{Opens, duckdb_handle_factory-Opens}
use pdo_duckdb_php.Handle.Memory.{IsClear, IsLinked, queries-IsLinked, duckdb_handle_closer-IsClear}
use pdo_duckdb_php.Handle.Attributes.{Attribute, AttributeValue, duckdb_set_attribute}

module _ {d : Duckdb} where
  -- One call of PDO on a connection, or anything that others do to what is behind DuckDB.
  pub data Step (l : Link d) : Link d → Type 0 where
    exec : (sql : Bytes) → Step l (duckdb_handle_doer l sql).0
    begin : Step l (duckdb_handle_begin l).0
    commit : Step l (duckdb_handle_commit l).0
    rollback : Step l (duckdb_handle_rollback l).0
    set_attribute :
        (a : Attribute) (v : AttributeValue)
        → Step l (record l { H = (duckdb_set_attribute l.H a v).0 })
    elsewhere : (w : d.World) → Step l (record l { world = w })

  pub data Steps (l : Link d) : Link d → Type 0 where
    here : Steps l l
    later : {n n' : Link d} → Steps l n → Step n n' → Steps l n'

  -- The handle is PDO's and owns what it holds.
  pub record IsAlive (l : Link d) : Type 0 where
    pub linked : IsLinked l
    pub is_attached : l.attached ≡ true

  run_query-attached : (l : Link d) (sql : Bytes) → (run_query l sql).0.attached ≡ l.attached
  unfolding run_query
  run_query-attached l sql = refl

  finish_exec-attached :
      (st : DuckdbState) (l : Link d) (r : d.Result) → (finish_exec st l r).0.attached ≡ l.attached
  unfolding finish_exec free_result throw
  finish_exec-attached success l r = refl
  finish_exec-attached error l r = refl

  finish_transaction-attached :
      (st : DuckdbState) (l : Link d) (r : d.Result)
      → (finish_transaction st l r).0.attached ≡ l.attached
  unfolding finish_transaction free_result note_error
  finish_transaction-attached success l r = refl
  finish_transaction-attached error l r = refl

  set_attribute-IsLinked :
      (l : Link d) (a : Attribute) (v : AttributeValue)
      → IsLinked l
      → IsLinked (record l { H = (duckdb_set_attribute l.H a v).0 })
  unfolding duckdb_set_attribute
  set_attribute-IsLinked l a v i = ground arith

  queries-attached :
      (l : Link d) (sql : Bytes)
      → ((duckdb_handle_doer l sql).0.attached ≡ l.attached)
        × ((duckdb_handle_begin l).0.attached ≡ l.attached)
        × ((duckdb_handle_commit l).0.attached ≡ l.attached)
        × ((duckdb_handle_rollback l).0.attached ≡ l.attached)
  unfolding duckdb_handle_doer duckdb_handle_begin duckdb_handle_commit duckdb_handle_rollback
  queries-attached l sql = (
    finish_exec-attached _ _ _ ∙ run_query-attached l _,
    finish_transaction-attached _ _ _ ∙ run_query-attached l _,
    finish_transaction-attached _ _ _ ∙ run_query-attached l _,
    finish_transaction-attached _ _ _ ∙ run_query-attached l _,
  )

  Step-IsAlive : {l n : Link d} → Step l n → IsAlive l → IsAlive n
  Step-IsAlive {l} (exec sql) a = record {
    linked = (queries-IsLinked l sql a.linked).0;
    is_attached = (queries-attached l sql).0 ∙ a.is_attached;
  }
  Step-IsAlive {l} begin a = record {
    linked = (queries-IsLinked l [] a.linked).1;
    is_attached = (queries-attached l []).1 ∙ a.is_attached;
  }
  Step-IsAlive {l} commit a = record {
    linked = (queries-IsLinked l [] a.linked).2;
    is_attached = (queries-attached l []).2 ∙ a.is_attached;
  }
  Step-IsAlive {l} rollback a = record {
    linked = (queries-IsLinked l [] a.linked).3;
    is_attached = (queries-attached l []).3 ∙ a.is_attached;
  }
  Step-IsAlive {l} (set_attribute b v) a = record {
    linked = set_attribute-IsLinked l b v a.linked;
    is_attached = a.is_attached;
  }
  Step-IsAlive (elsewhere w) a = record {
    linked = record {
      results = a.linked.results;
      configs = a.linked.configs;
      databases = a.linked.databases;
      connections = a.linked.connections;
      locks = a.linked.locks;
      errors = a.linked.errors;
    };
    is_attached = a.is_attached;
  }

  Steps-IsAlive : {l n : Link d} → Steps l n → IsAlive l → IsAlive n
  Steps-IsAlive here a = a
  Steps-IsAlive (later r st) a = Step-IsAlive st (Steps-IsAlive r a)

  -- A connection that was opened has, once it is closed, freed its database, its connection, its lock,
  -- the configuration it was opened with, the text of an error that the opening gave, and the result of
  -- every query it ran, each once, whatever PDO called in between and in whatever order, whatever DuckDB
  -- answered, and whatever others did meanwhile.
  pub life-IsClear :
      (q : Request) (l n : Link d)
      → IsClear l.trace
      → l.attached ≡ false
      → (duckdb_handle_factory q l).1 ≡ true
      → Steps (duckdb_handle_factory q l).0 n
      → IsClear (duckdb_handle_closer n).trace × ((duckdb_handle_closer n).attached ≡ false)
  life-IsClear q l n clear free e r =
      let (linked, is_attached, methods) =
        subst (Opens (duckdb_handle_factory q l).0) e
          (duckdb_handle_factory-Opens q l clear free) in
      let a = Steps-IsAlive r (record { linked = linked; is_attached = is_attached }) in
      duckdb_handle_closer-IsClear n a.is_attached a.linked
