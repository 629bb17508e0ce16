-- ===== src/Stubs/Tests.antt =====
-- A value whose text has a NUL.
use pdo_duckdb_php.Common.{ℕ, refl, true, false, [], ◌∷◌, none, some, Bytes}
use pdo_duckdb_php.Stubs.{Classes, duckdb_get_string, value_string, copied}
use pdo_duckdb_php.Stubs.Text.{Reads, duckdb_get_string-Reads}

abbrev classes : Classes
classes = record {
  World = ℕ;
  Connection = ℕ;
  Vector = ℕ;
  LogicalType = ℕ;
  Value = Bytes;
  has_active_transaction = λ conn w. some false;
  get_value = λ vec row w. some (97 ∷ 0 ∷ 98 ∷ []);
  is_null = λ v. false;
  variant_value = λ v w. some v;
  type_of = λ v. 0;
  new_vector = λ v w. none;
  delete_vector = λ vec w. w;
  cast_to_string = λ conn v w. some v;
  type_to_string = λ t w. none;
  has_room = λ size w. true;
}

duckdb_get_string-Reads_example : Reads classes 0 1 2 0 (97 ∷ 0 ∷ 98 ∷ 0 ∷ [])
unfolding duckdb_get_string value_string copied
duckdb_get_string-Reads_example =
    duckdb_get_string-Reads classes 0 1 2 0 (97 ∷ 0 ∷ 98 ∷ 0 ∷ []) refl
