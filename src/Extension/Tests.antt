-- ===== src/Extension/Tests.antt =====
-- The start of the module over PDO's table, with functions that change nothing.
use pdo_duckdb_php.Common.{ℕ, ◌≡◌, refl, true, false, [], none, some, codes}
use pdo_duckdb_php.Common.Int.{pos}
use pdo_duckdb_php.Params.{Parameter}
use pdo_duckdb_php.Overrides.{returned, Php, State}
use pdo_duckdb_php.Extension.{Process, minit}
use pdo_duckdb_php.Extension.Handlers.{
  Natives, pdo_table, php_execute, php_bind_value, php_bind_param, minit-handlers,
}

abbrev php : Php
php = record {
  World = ℕ;
  Prepared = ℕ;
  text_of = λ s. record { bytes = s; is_true = true; long = pos 0 };
  parse_fails = λ args. false;
  clear_bindings = λ p w. w;
}

abbrev natives : Natives php
natives = record { executes = λ f args s. s; binds = λ f args s. s }

abbrev process : Process ℕ
process = record {
  query_farm_opt_out = none;
  datazoo_disable = some (codes "0");
  registered = false;
  cache = none;
  constants = [];
  table = some (pdo_table 1 2 3);
  original_execute = none;
  original_bind_value = none;
  original_bind_param = none;
}

-- A statement of another driver, with data.
abbrev foreign : State php
foreign = record {
  stmt = record { driver_data = some (some 7); is_duckdb = false; bound_params = none };
  variables = λ x. Parameter.null;
  world = 0;
}

minit-handlers_example :
    (php_execute php natives (minit true (some 5) process).0 [] foreign ≡ some (foreign, returned))
    × (php_bind_value php natives (minit true (some 5) process).0 [] foreign
        ≡ some (foreign, returned))
    × (php_bind_param php natives (minit true (some 5) process).0 [] foreign
        ≡ some (foreign, returned))
minit-handlers_example = minit-handlers php natives (some 5) process 1 2 3 [] [] foreign refl
