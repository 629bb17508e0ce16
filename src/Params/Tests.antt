-- ===== src/Params/Tests.antt =====
-- Binding with a concrete `Binder`, which keeps what is bound; every parameter is an INTEGER, and a name
-- has the index 2.
use pdo_duckdb_php.Common.{ℕ, List, [], ◌∷◌, ◌++◌, some, ◌≡◌, refl, inl, inr, codes, arith}
use pdo_duckdb_php.Common.Int.{negsuc}
use pdo_duckdb_php.Api.{success}
use pdo_duckdb_php.Types.{TypeId}
use pdo_duckdb_php.Params.{
  Bound, Binder, Parameter, BindType, BoundParam, accepted, bare_name, bind_long, chosen, resolve,
  named_index, bind_value, duckdb_stmt_param_hook,
}
use pdo_duckdb_php.Params.Binding.{
  IsInteger, bind_long-IsInteger, BindsAccepted, duckdb_stmt_param_hook-accepted, bare_name-prefix,
}

abbrev binder : Binder
binder = record {
  World = List (ℕ × Bound);
  Prepared = ℕ;
  bind = λ p idx b w. ((idx, b) ∷ w, success);
  param_type = λ p idx w. TypeId.integer;
  bind_parameter_index = λ p name w. (success, 2);
}

abbrev named_param : BoundParam
named_param = record {
  paramno = negsuc 0;
  name = some (codes ":limit");
  parameter = Parameter.long (negsuc 4);
  param_type = BindType.int;
}

bind_long-IsInteger_example : IsInteger (negsuc 4) (bind_long TypeId.integer (negsuc 4))
bind_long-IsInteger_example = bind_long-IsInteger TypeId.integer (negsuc 4)

duckdb_stmt_param_hook-accepted_example :
    BindsAccepted binder (some 0) named_param [] ((2, Bound.int32 (negsuc 4)) ∷ [], accepted)
unfolding duckdb_stmt_param_hook resolve named_index bind_value chosen bind_long
duckdb_stmt_param_hook-accepted_example =
    duckdb_stmt_param_hook-accepted binder (some 0) named_param []
      ((2, Bound.int32 (negsuc 4)) ∷ []) (omega arith) refl

bare_name-prefix_example : bare_name (codes ":$" ++ codes "limit") ≡ codes "limit"
bare_name-prefix_example =
    bare_name-prefix (codes ":$") (codes "limit") (inl refl, (inr refl, tt))
      (ground arith, ground arith)
