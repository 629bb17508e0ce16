-- ===== src/Overrides/Tests.antt =====
-- The handlers over an `execute` that changes nothing. The world counts how often bindings were cleared.
use pdo_duckdb_php.Common.{ℕ, ◌+◌, refl, true, false, List, [], ◌∷◌, none, some, codes}
use pdo_duckdb_php.Common.Int.{pos}
use pdo_duckdb_php.Value.{index}
use pdo_duckdb_php.Params.{Parameter}
use pdo_duckdb_php.Overrides.{
  plain, Params, entries, Argument, value, variable, Php, State, stmt_bind_param_override,
}
use pdo_duckdb_php.Overrides.Binding.{Binds, stmt_bind_param_override-Binds}

abbrev php : Php
php = record {
  World = ℕ;
  Prepared = ℕ;
  text_of = λ s. record { bytes = s; is_true = true; long = pos 0 };
  parse_fails = λ args. false;
  clear_bindings = λ p w. w + 1;
}

abbrev state : State php
state = record {
  stmt = record { driver_data = some (some 7); is_duckdb = true; bound_params = some [] };
  variables = λ x. Parameter.structured (some (codes "[1]"));
  world = 0;
}

-- An array, and one that cannot be encoded behind it.
abbrev params : List Params
params =
    entries (
      (index (pos 0), plain (Parameter.structured (some (codes "[1]"))))
      ∷ (index (pos 1), plain (Parameter.structured none))
      ∷ [])
    ∷ []

abbrev arguments : List Argument
arguments = value (Parameter.long (pos 1)) ∷ variable 4 ∷ value (Parameter.long (pos 3)) ∷ []

stmt_bind_param_override-Binds_example :
    Binds php
      (λ s. refl)
      (λ args s. s)
      arguments
      state
      (stmt_bind_param_override php (λ args s. s) arguments state)
stmt_bind_param_override-Binds_example =
    stmt_bind_param_override-Binds php (λ s. refl) (λ args s. s) arguments state refl
