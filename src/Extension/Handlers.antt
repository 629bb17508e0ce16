-- ===== src/Extension/Handlers.antt =====
-- pdo_duckdb.c: PHP's calls through the table of handlers that the start of the module leaves.
use pdo_duckdb_php.Common.{
  Bool, false, not, arith, ℕ, ◌≡◌, refl, true, List, Option, none, some, inl, inr, Bool-cases,
  if◌then◌else◌,
}
use pdo_duckdb_php.Overrides.{
  Params, Argument, Php, Outcome, returned, State, Original, is_foreign, stmt_execute_override,
  stmt_bind_value_override, stmt_bind_param_override, execute_own, bind_value_own, bind_param_own,
}
use pdo_duckdb_php.Extension.{
  Pointer, native, execute_override, bind_value_override, bind_param_override, Table, Process,
  install_handlers, declare_constants, opt_out, minit,
}

-- What the functions behind the native pointers do.
pub record Natives (k : Php) : Type 0 where
  pub executes : ℕ → Original k Params
  pub binds : ℕ → Original k Argument

abbrev execute_of : Option Table → Option Pointer
execute_of none = none
execute_of (some t) = t.execute

abbrev bind_value_of : Option Table → Option Pointer
bind_value_of none = none
bind_value_of (some t) = t.bind_value

abbrev bind_param_of : Option Table → Option Pointer
bind_param_of none = none
bind_param_of (some t) = t.bind_param

-- The table of PDO alone.
abbrev pub pdo_table : ℕ → ℕ → ℕ → Table
pdo_table e v b = record {
  execute = some (native e);
  bind_value = some (native v);
  bind_param = some (native b);
}

module _ {Cache : Type 0} (k : Php) (n : Natives k) (p : Process Cache) where
  -- The call of a pointer; `none` where there is none, or where this module's handler has kept no
  -- native one.
  call_execute : Option Pointer → List Params → State k → Option (State k × Outcome)
  call_execute (some (native f)) args s = some (n.executes f args s, returned)
  call_execute (some execute_override) args s = elim p.original_execute [
    | some (native f) ↦ stmt_execute_override k (n.executes f) args s
    | _ ↦ none
  ]
  call_execute _ args s = none

  call_bind : Option Pointer → List Argument → State k → Option (State k × Outcome)
  call_bind (some (native f)) args s = some (n.binds f args s, returned)
  call_bind (some bind_value_override) args s = elim p.original_bind_value [
    | some (native f) ↦ some (stmt_bind_value_override k (n.binds f) args s)
    | _ ↦ none
  ]
  call_bind (some bind_param_override) args s = elim p.original_bind_param [
    | some (native f) ↦ some (stmt_bind_param_override k (n.binds f) args s)
    | _ ↦ none
  ]
  call_bind _ args s = none

  -- PHP's calls, through the table.
  pub php_execute : List Params → State k → Option (State k × Outcome)
  unfolding call_execute
  php_execute = call_execute (execute_of p.table)

  pub php_bind_value : List Argument → State k → Option (State k × Outcome)
  unfolding call_bind
  php_bind_value = call_bind (bind_value_of p.table)

  pub php_bind_param : List Argument → State k → Option (State k × Outcome)
  unfolding call_bind
  php_bind_param = call_bind (bind_param_of p.table)

-- A statement that the driver has prepared: it has data, and the driver's table of methods.
abbrev pub is_ours : {P : Type 0} → Option P → Bool → Bool
is_ours none methods = false
is_ours (some p) methods = methods

is_foreign-is_ours :
    (k : Php) (s : State k) → is_foreign k s ≡ not (is_ours s.driver_data s.is_duckdb)
is_foreign-is_ours k s = ground arith

module _ {Cache : Type 0} (k : Php) (n : Natives k) (made : Option Cache) where
  -- Behind the start of the module over PDO's own handlers, a call of `execute`, `bindValue` or
  -- `bindParam` on a statement that has data and this driver's table of methods runs the driver's code in
  -- front of the handler that was there; on any other it does what it did before.
  pub minit-handlers :
      (p : Process Cache) (e v b : ℕ) (params : List Params) (args : List Argument) (s : State k)
      → p.table ≡ some (pdo_table e v b)
      → let ours = is_ours s.driver_data s.is_duckdb in
        (php_execute k n (minit true made p).0 params s ≡ (
          if ours
          then execute_own k (n.executes e) params s
          else some (n.executes e params s, returned)))
        × (php_bind_value k n (minit true made p).0 args s ≡ (
            if ours
            then some (bind_value_own k (n.binds v) args s)
            else some (n.binds v args s, returned)))
        × (php_bind_param k n (minit true made p).0 args s ≡ (
            if ours
            then some (bind_param_own k (n.binds b) args s)
            else some (n.binds b args s, returned)))
  unfolding minit install_handlers declare_constants opt_out php_execute php_bind_value
      php_bind_param stmt_execute_override stmt_bind_value_override stmt_bind_param_override
  minit-handlers p e v b params args s t = elim (Bool-cases (is_ours s.driver_data s.is_duckdb)) [
    | inl o ↦ rw (t, is_foreign-is_ours k s, o) (refl, refl, refl)
    | inr o ↦ rw (t, is_foreign-is_ours k s, o) (refl, refl, refl)
  ]
