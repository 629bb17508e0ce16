-- ===== src/Overrides.antt =====
-- pdo_duckdb.c: the handlers in front of `PDOStatement::execute`, `bindValue` and `bindParam`. They turn
-- arrays and objects into JSON and call PDO's handlers, which are parameters, as is what they call of
-- PHP and DuckDB.
pub mod Encoding
pub mod Execute
pub mod Binding
mod Tests
use pdo_duckdb_php.Common.{
  ℕ, ◌+◌, Bool, true, false, not, ◌||◌, List, [], ◌∷◌, ◌++◌, Option, none, some, ◌⊎◌, inl, inr,
  ◌==◌, if◌then◌else◌, is_null, Bytes, codes,
}
use pdo_duckdb_php.Common.Int.{pos}
use pdo_duckdb_php.Handle.{hy000}
use pdo_duckdb_php.Value.{Key}
use pdo_duckdb_php.Value.Convert.{print_u64}
use pdo_duckdb_php.Params.{Parameter, Text, BoundParam}

-- A value in the array of `execute`; behind a reference the code does not look for an array.
pub data Entry : Type 0 where
  plain reference : Parameter → Entry

-- The argument of `execute`: an array, or a value of another kind.
pub data Params : Type 0 where
  entries : List (Key × Entry) → Params
  no_array : Params

-- An argument of `bindValue` and `bindParam`: a value, or a reference to a variable.
pub data Argument : Type 0 where
  value : Parameter → Argument
  variable : ℕ → Argument

pub record Php : Type 1 where
  pub World : Type 0
  pub Prepared : Type 0
  -- A PHP string.
  pub text_of : Bytes → Text
  -- `zend_parse_parameters(1, "z", &params) == FAILURE`
  pub parse_fails : List Params → Bool
  pub clear_bindings : Option Prepared → World → World

-- What a handler does to the call beside the state: it returns, or throws an exception of its own or
-- that of PHP's check of the arguments.
pub data Outcome : Type 0 where
  returned : Outcome
  thrown : Bytes → Outcome
  not_parsed : Outcome

-- The 3rd argument, the type, becomes `PDO_PARAM_STR`, where it is given.
abbrev pub as_string_type : List Argument → List Argument
as_string_type [] = []
as_string_type (t ∷ rest) = value (Parameter.long (pos 2)) ∷ rest

-- An encoded entry in front of the others.
abbrev pub with_entry : Key × Entry → ℕ ⊎ List (Key × Entry) → ℕ ⊎ List (Key × Entry)
with_entry e (inl n) = inl n
with_entry e (inr es) = inr (e ∷ es)

-- `zend_hash_clean`
abbrev pub cleaned : Option (List BoundParam) → Option (List BoundParam)
cleaned none = none
cleaned (some ps) = some []

-- The messages.
abbrev pub encode_failed : ℕ → Bytes
encode_failed position =
    hy000 (codes "could not encode parameter " ++ (print_u64 position ++ codes " as JSON"))

abbrev pub bind_failed : Bytes
bind_failed = hy000 (codes "could not encode parameter as JSON")

module _ (k : Php) where
  -- The fields of a `pdo_stmt_t` that the handlers read: `driver_data` with the prepared statement that
  -- `pdo_duckdb_stmt` holds, whether `methods` is the driver's table, and the bound parameters.
  pub record PdoStmt : Type 0 where
    pub driver_data : Option (Option k.Prepared)
    pub is_duckdb : Bool
    pub bound_params : Option (List BoundParam)

  pub record State : Type 0 where
    pub stmt : PdoStmt
    pub open stmt use *
    -- The variables of the script, which references name.
    pub variables : ℕ → Parameter
    pub world : k.World

  -- A handler that PDO has installed.
  abbrev pub Original : Type 0 → Type 0
  Original A = List A → State → State

  -- The JSON text of an array or object as a PHP string; other values stay as they are.
  unfoldable pub encode : Parameter → Option Parameter
  encode (Parameter.structured none) = none
  encode (Parameter.structured (some json)) = some (Parameter.text (k.text_of json))
  encode v = some v

  unfoldable pub encode_entry : Entry → Option Entry
  unfolding encode
  encode_entry (reference v) = some (reference v)
  encode_entry (plain v) = elim (encode v) [ none ↦ none | some v' ↦ some (plain v') ]

  -- The loop over the copied array: its entries, or the position of one that cannot be encoded.
  unfoldable pub encode_entries : ℕ → List (Key × Entry) → ℕ ⊎ List (Key × Entry)
  encode_entries position [] = inr []
  encode_entries position ((key, e) ∷ rest) = elim (encode_entry e) [
    | none ↦ inl (position + 1)
    | some e' ↦ with_entry (key, e') (encode_entries (position + 1) rest)
  ]

  -- The statement belongs to another driver, or has no data.
  abbrev pub is_foreign : State → Bool
  is_foreign s = is_null s.driver_data || not s.is_duckdb

  -- Behind PDO's `execute` the bindings are cleared; `none` is the access to a NULL `driver_data`.
  unfoldable pub clear_after : State → Option (State × Outcome)
  clear_after s = elim s.driver_data [
    | none ↦ none
    | some p ↦ some (
      record s {
        stmt = record (s.stmt) { bound_params = cleaned s.bound_params };
        world = k.clear_bindings p s.world;
      },
      returned,
    )
  ]

  abbrev pub encoded :
      Original Params → List Params → State → ℕ ⊎ List (Key × Entry) → Option (State × Outcome)
  encoded original rest s (inl position) = some (s, thrown (encode_failed position))
  encoded original rest s (inr es) = clear_after (original (entries es ∷ rest) s)

  -- The call on a statement of this driver.
  unfoldable pub execute_own : Original Params → List Params → State → Option (State × Outcome)
  execute_own original [] s = clear_after (original [] s)
  execute_own original (no_array ∷ rest) s =
      if k.parse_fails (no_array ∷ rest)
      then some (s, not_parsed)
      else clear_after (original (no_array ∷ rest) s)
  execute_own original (entries es ∷ rest) s =
      if k.parse_fails (entries es ∷ rest)
      then some (s, not_parsed)
      else encoded original rest s (encode_entries 0 es)

  -- `pdo_duckdb_stmt_execute_override`
  unfoldable pub stmt_execute_override :
      Original Params → List Params → State → Option (State × Outcome)
  stmt_execute_override original args s =
      if is_foreign s then some (original args s, returned) else execute_own original args s

  -- The call with the encoded value, and the type of a string.
  unfoldable pub bind_encoded :
      Original Argument → Argument → Parameter → List Argument → State → State × Outcome
  bind_encoded original which (Parameter.structured none) rest s = (s, thrown bind_failed)
  bind_encoded original which (Parameter.structured (some json)) rest s =
      (original (which ∷ value (Parameter.text (k.text_of json)) ∷ as_string_type rest) s, returned)
  bind_encoded original which v rest s = (original (which ∷ value v ∷ rest) s, returned)

  -- The same for a reference: the variable itself becomes the string.
  unfoldable pub bind_variable :
      Original Argument → Argument → ℕ → Parameter → List Argument → State → State × Outcome
  bind_variable original which x (Parameter.structured none) rest s = (s, thrown bind_failed)
  bind_variable original which x (Parameter.structured (some json)) rest s = (
    original (which ∷ variable x ∷ as_string_type rest) (record s {
      variables = λ y. if x == y then Parameter.text (k.text_of json) else s.variables y;
    }),
    returned,
  )
  bind_variable original which x v rest s = (original (which ∷ variable x ∷ rest) s, returned)

  -- The call of `bindValue` on a statement of this driver: a reference is no array.
  unfoldable pub bind_value_own : Original Argument → List Argument → State → State × Outcome
  bind_value_own original (which ∷ value v ∷ rest) s = bind_encoded original which v rest s
  bind_value_own original args s = (original args s, returned)

  unfoldable pub bind_param_own : Original Argument → List Argument → State → State × Outcome
  bind_param_own original (which ∷ value v ∷ rest) s = bind_encoded original which v rest s
  bind_param_own original (which ∷ variable x ∷ rest) s =
      bind_variable original which x (s.variables x) rest s
  bind_param_own original args s = (original args s, returned)

  -- `pdo_duckdb_stmt_bind_value_override`
  unfoldable pub stmt_bind_value_override :
      Original Argument → List Argument → State → State × Outcome
  stmt_bind_value_override original args s =
      if is_foreign s then (original args s, returned) else bind_value_own original args s

  -- `pdo_duckdb_stmt_bind_param_override`
  unfoldable pub stmt_bind_param_override :
      Original Argument → List Argument → State → State × Outcome
  stmt_bind_param_override original args s =
      if is_foreign s then (original args s, returned) else bind_param_own original args s
