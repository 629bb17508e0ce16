-- ===== src/Stubs.antt =====
-- duckdb_stubs.cpp: the helpers that call DuckDB's C++ classes, which are a parameter, `Classes`. A call
-- that may throw gives `none` where it does; `catch (...)` keeps the exception from leaving.
pub mod Text
mod Tests
use pdo_duckdb_php.Common.{
  ℕ, ◌+◌, Bool, true, false, List, [], ◌∷◌, ◌++◌, Option, none, some, if◌then◌else◌, Bytes, c_str,
  length,
}

pub record Classes : Type 1 where
  pub World : Type 0
  pub Connection : Type 0
  pub Vector : Type 0
  pub LogicalType : Type 0
  pub Value : Type 0
  -- `context->transaction.HasActiveTransaction()`
  pub has_active_transaction : Connection → World → Option Bool
  -- `Vector::GetValue`, `Value::IsNull`, `VariantValue::GetValue`, `Value::type`.
  pub get_value : Vector → ℕ → World → Option Value
  pub is_null : Value → Bool
  pub variant_value : Value → World → Option Value
  pub type_of : Value → LogicalType
  -- `new Vector(value, 1)`, which may throw, and `delete`.
  pub new_vector : Value → World → Option (World × Vector)
  pub delete_vector : Vector → World → World
  -- `CastAs(…, VARCHAR).ToString()` and `LogicalType::ToString`.
  pub cast_to_string : Connection → Value → World → Option Bytes
  pub type_to_string : LogicalType → World → Option Bytes
  -- `duckdb_malloc(size) != NULL`
  pub has_room : ℕ → World → Bool

-- The bytes that are written into the new buffer: the text with a terminator.
abbrev pub terminated : Bytes → Bytes
terminated str = str ++ (0 ∷ [])

module _ (d : Classes) where
  open d use {World, Connection, Vector, LogicalType, Value}

  unfoldable pub duckdb_has_active_transaction : Connection → World → Bool
  duckdb_has_active_transaction conn w = elim (d.has_active_transaction conn w) [
    | none ↦ false
    | some b ↦ b
  ]

  -- The new vector holds one row; the type of the value goes with it.
  unfoldable pub variant_vector : Option Value → World → World × Option (Vector × LogicalType)
  variant_vector none w = (w, none)
  variant_vector (some v) w = elim (d.new_vector v w) [
    | none ↦ (w, none)
    | some (w', vec) ↦ (w', some (vec, d.type_of v))
  ]

  unfoldable pub duckdb_variant_to_vector :
      Vector → ℕ → World → World × Option (Vector × LogicalType)
  duckdb_variant_to_vector vec row w = elim (d.get_value vec row w) [
    | none ↦ (w, none)
    | some raw ↦ if d.is_null raw then (w, none) else variant_vector (d.variant_value raw w) w
  ]

  unfoldable pub duckdb_free_vector : Option Vector → World → World
  duckdb_free_vector none w = w
  duckdb_free_vector (some vec) w = d.delete_vector vec w

  -- The buffer for a text; NULL without memory, or where there is no text.
  unfoldable pub copied : Option Bytes → World → Option Bytes
  copied none w = none
  copied (some str) w = if d.has_room (length str + 1) w then some (terminated str) else none

  unfoldable pub value_string : Connection → Option Value → World → Option Bytes
  value_string conn none w = none
  value_string conn (some v) w = if d.is_null v then none else copied (d.cast_to_string conn v w) w

  unfoldable pub duckdb_get_string : Connection → Option Vector → ℕ → World → Option Bytes
  duckdb_get_string conn none row w = none
  duckdb_get_string conn (some vec) row w = value_string conn (d.get_value vec row w) w

  unfoldable pub duckdb_logical_type_to_string : Option LogicalType → World → Option Bytes
  duckdb_logical_type_to_string none w = none
  duckdb_logical_type_to_string (some t) w = copied (d.type_to_string t w) w
