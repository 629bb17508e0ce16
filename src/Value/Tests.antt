-- ===== src/Value/Tests.antt =====
-- Value conversion on concrete columns: integers, and lists of them nested to any depth. A type is the
-- depth of its nesting; every list has two entries, from index 3 on.
use pdo_duckdb_php.Common.{
  ℕ, zero, suc, ◌∷◌, ◌+◌, ◌-◌, ◌*◌, ◌^◌, ◌<◌, Bool, true, false, [], none, some, ◌≡◌, ◌≢◌, ◌↔◌, ◌⊎◌,
  refl, ap, ltb, arith, codes, if◌then◌else◌,
}
use pdo_duckdb_php.Common.Int.{pos, negsuc, ◌≤ℤ◌}
use pdo_duckdb_php.Types.{TypeId}
use pdo_duckdb_php.Value.{Key, index, Zval, Entries, end, entry, add_next_index}
use pdo_duckdb_php.Value.Huge.{
  Huge, IsWords, hugeint_is_long, huge_value, hugeint_is_long_iff, decimal_is_double,
  decimal_is_double_iff,
}
use pdo_duckdb_php.Value.Convert.{Columns, convert_ubigint, effective_type, list_items}
use pdo_duckdb_php.Value.Column.{
  convert, stringified, duckdb_val_from_vector, duckdb_stmt_get_col, IsText,
  duckdb_stmt_get_col-IsText,
}
use pdo_duckdb_php.Value.Numbers.{Shows, convert_ubigint-Shows}
use pdo_duckdb_php.Value.Lists.{listing, duckdb_val_from_vector-list}
use pdo_duckdb_php.Value.Maps.{lookup, IsUnique, last_value, key_of, duckdb_val_from_vector-map}
use pdo_duckdb_php.Value.Structs.{
  fields, duckdb_val_from_vector-struct, duckdb_val_from_vector-array,
}
use pdo_duckdb_php.Value.Total.{Depth, duckdb_val_from_vector-ends}

abbrev type_of : ℕ → TypeId
type_of zero = TypeId.bigint
type_of (suc n) = TypeId.list

abbrev huge_one : Huge
huge_one = record { upper = 0; lower = 1 }

abbrev wide : Huge
wide = record { upper = 2 ^ 64 - 1; lower = 0 }

abbrev columns : Columns
columns = record {
  Vector = ℕ;
  LogicalType = ℕ;
  get_type_id = type_of;
  get_alias = λ t. none;
  row_is_valid = λ v row. true;
  word = λ bits v row. row;
  huge = λ v row. wide;
  string_data = λ v row. codes "text";
  get_string = λ v row. some (codes "-18446744073709551616");
  decimal_internal_type = λ t. TypeId.hugeint;
  decimal_to_double = λ t h. 0;
  reprint_float = λ w. w;
  list_entry = λ v row. (3, 2);
  list_child = λ v. v;
  list_child_type = λ t. t - 1;
  struct_child_count = λ t. 0;
  struct_child_name = λ t i. none;
  struct_child_type = λ t i. t;
  struct_child = λ v i. v;
  map_key_type = λ t. t;
  map_value_type = λ t. t;
  union_member_count = λ t. 0;
  union_member_name = λ t i. [];
  union_member_type = λ t i. t;
  array_child = λ v. v;
  array_child_type = λ t. t;
  array_size = λ t. 0;
  variant_to_vector = λ v row. none;
  json_decode = λ s. none;
  scalar_string = λ z. codes "3";
  symtable_key = Key.name;
  json_encode = λ z. none;
}

list_lower : (t : ℕ) → type_of t ≡ TypeId.list → t - 1 < t
list_lower zero e = cc
list_lower (suc t) e = omega arith

abbrev is_used : TypeId → Bool
is_used TypeId.bigint = true
is_used TypeId.list = true
is_used _ = false

used : (t : ℕ) → is_used (type_of t) ≡ true
used zero = refl
used (suc t) = refl

only_lists : (t : ℕ) (u : TypeId) → is_used u ≡ false → type_of t ≢ u
only_lists t u o e = let same = ap is_used e in cc (used t, same, o)

abbrev nesting : Depth columns
nesting = record {
  depth = λ v t. t;
  list_depth = λ v t e. list_lower t e;
  array_depth = λ v t e. absurd (only_lists t TypeId.array refl e);
  struct_depth = λ v t i e. absurd (only_lists t TypeId.struct refl e);
  key_depth = λ v t e. absurd (only_lists t TypeId.map refl e);
  value_depth = λ v t e. absurd (only_lists t TypeId.map refl e);
  union_depth = λ v t i e. absurd (only_lists t TypeId.union refl e);
  variant_depth = λ v u t s row e g. absurd (only_lists t TypeId.variant refl e);
}

abbrev number : ℕ → Zval
number n = Zval.long (if ltb n (2 ^ 63) then pos n else negsuc (2 * 2 ^ 63 - n - 1))

wide-IsWords : IsWords wide
wide-IsWords = record { upper_fits = omega arith; lower_fits = omega arith }

huge_one-IsWords : IsWords huge_one
huge_one-IsWords = record { upper_fits = omega arith; lower_fits = omega arith }

duckdb_val_from_vector-ends_example : (z : Zval) × (duckdb_val_from_vector columns 3 0 2 0 ≡ some z)
duckdb_val_from_vector-ends_example =
    duckdb_val_from_vector-ends columns nesting 3 0 2 0 (omega arith)

duckdb_val_from_vector-list_example :
    duckdb_val_from_vector columns 2 0 1 0 ≡ some (Zval.array (listing number 3 0 2))
unfolding effective_type duckdb_val_from_vector convert
duckdb_val_from_vector-list_example =
    duckdb_val_from_vector-list columns 1 0 1 0 number refl refl (λ i x y. refl)

-- The list is [3, 4].
list_run :
    duckdb_val_from_vector columns 2 0 1 0
    ≡ some (
        Zval.array (
          entry
            (index (pos 0))
            (Zval.long (pos 3))
            (entry (index (pos 1)) (Zval.long (pos 4)) end)))
unfolding duckdb_val_from_vector convert effective_type list_items add_next_index
list_run = refl

hugeint_is_long_iff_example :
    (hugeint_is_long huge_one ≡ true)
    ↔ ((negsuc (2 ^ 63 - 1) ≤ℤ huge_value huge_one) × (huge_value huge_one ≤ℤ pos (2 ^ 63 - 1)))
hugeint_is_long_iff_example = hugeint_is_long_iff huge_one huge_one-IsWords

decimal_is_double_iff_example : (decimal_is_double wide ≡ true) ↔ (
    ((negsuc (2 ^ 53 - 1) ≤ℤ huge_value wide) × (huge_value wide ≤ℤ pos (2 ^ 53)))
    ⊎ (huge_value wide ≡ negsuc (2 ^ 64 - 1)))
decimal_is_double_iff_example = decimal_is_double_iff wide wide-IsWords

-- The word behind the greatest integer of PHP.
convert_ubigint-Shows_example : Shows (convert_ubigint columns (2 ^ 63)) (2 ^ 63)
convert_ubigint-Shows_example = convert_ubigint-Shows columns (2 ^ 63) (omega arith)

get_col_run :
    duckdb_stmt_get_col columns 1 true (pos 1) (some (λ i. (0, 0))) 3 (pos 0)
    ≡ some (Zval.string (codes "3"), true)
unfolding duckdb_stmt_get_col duckdb_val_from_vector convert effective_type stringified
get_col_run = refl

duckdb_stmt_get_col-IsText_example : IsText columns (Zval.string (codes "3"))
duckdb_stmt_get_col-IsText_example =
    duckdb_stmt_get_col-IsText columns 1 (pos 1) (some (λ i. (0, 0))) 3 (pos 0)
      (Zval.string (codes "3")) true get_col_run

-- Maps from integers to integers, whose keys all become the text "3".
abbrev map_type_of : ℕ → TypeId
map_type_of zero = TypeId.bigint
map_type_of (suc n) = TypeId.map

abbrev maps : Columns
maps = record columns { get_type_id = map_type_of; map_key_type = λ t. 0; map_value_type = λ t. 0 }

duckdb_val_from_vector-map_example :
    (es : Entries) × (duckdb_val_from_vector maps 2 0 1 0 ≡ some (Zval.array es))
    × ((key : Key) → lookup key es ≡ last_value (λ j. key_of maps (number j)) number key 3 2)
    × IsUnique es
unfolding effective_type duckdb_val_from_vector convert
duckdb_val_from_vector-map_example =
    duckdb_val_from_vector-map maps 1 0 1 0 number number refl refl (λ i x y. refl) (λ i x y. refl)

-- Structs with the fields "a" and "b", and arrays of two elements: of integers, both.
abbrev struct_type_of : ℕ → TypeId
struct_type_of zero = TypeId.bigint
struct_type_of (suc zero) = TypeId.struct
struct_type_of (suc (suc n)) = TypeId.array

abbrev letter : ℕ → Key
letter i = Key.name ((97 + i) ∷ [])

letter-apart : (i j : ℕ) → i < j → letter i ≢ letter j
letter-apart i j h e = let same : 97 + i ≡ 97 + j = cc in omega arith

abbrev structs : Columns
structs = record columns {
  get_type_id = struct_type_of;
  struct_child_count = λ t. 2;
  struct_child_name = λ t i. some ((97 + i) ∷ []);
  struct_child_type = λ t i. 0;
  array_child_type = λ t. 0;
  array_size = λ t. 2;
}

duckdb_val_from_vector-struct_example :
    duckdb_val_from_vector structs 2 0 1 5 ≡ some (Zval.array (fields letter (λ i. number 5) 0 2))
unfolding effective_type duckdb_val_from_vector convert
duckdb_val_from_vector-struct_example =
    duckdb_val_from_vector-struct structs 1 0 1 5 letter (λ i. number 5) refl refl (λ i h. refl)
      (λ i j h g. letter-apart i j h) (λ i h. refl)

-- The row 3 is [6, 7].
duckdb_val_from_vector-array_example :
    duckdb_val_from_vector structs 2 0 2 3 ≡ some (Zval.array (listing number 6 0 2))
unfolding effective_type duckdb_val_from_vector convert
duckdb_val_from_vector-array_example =
    duckdb_val_from_vector-array structs 1 0 2 3 number refl refl (λ i h g. refl)
