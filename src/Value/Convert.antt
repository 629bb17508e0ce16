-- ===== src/Value/Convert.antt =====
-- duckdb_statement.c: `duckdb_val_from_vector` and `zval_to_map_key`. `Columns` is what the conversion
-- reads through DuckDB and PHP. The recursion takes fuel: `none` means that it ran out. An index is
-- below the length of DuckDB's vector, so that sums of indices are written without a wrap.
use pdo_duckdb_php.Common.{
  ℕ, zero, suc, ◌+◌, ◌-◌, ◌*◌, ◌/◌, ◌%◌, ◌^◌, Bool, true, false, not, ◌&&◌, [], ◌∷◌, ◌++◌, Option,
  none, some, if◌then◌else◌, ◌==◌, leb, ltb, Bytes, codes, bytes_eq,
}
use pdo_duckdb_php.Common.Int.{ℤ, pos, negsuc}
use pdo_duckdb_php.Types.{TypeId}
use pdo_duckdb_php.Value.{Key, Zval, Entries, end, entry, update, add_next_index}
use pdo_duckdb_php.Value.Huge.{Huge, long_max, minus_one, decimal_is_double}

pub record Columns : Type 1 where
  pub Vector : Type 0
  pub LogicalType : Type 0
  pub get_type_id : LogicalType → TypeId
  pub get_alias : LogicalType → Option Bytes
  pub row_is_valid : Vector → ℕ → Bool
  -- The word of so many bits in a row, and the words of a wide integer.
  pub word : ℕ → Vector → ℕ → ℕ
  pub huge : Vector → ℕ → Huge
  pub string_data : Vector → ℕ → Bytes
  -- `duckdb_get_string`
  pub get_string : Vector → ℕ → Option Bytes
  pub decimal_internal_type : LogicalType → TypeId
  pub decimal_to_double : LogicalType → Huge → ℕ
  -- `zend_strtod` of a float printed by "%.7g".
  pub reprint_float : ℕ → ℕ
  -- The first index and the number of a row's list entries.
  pub list_entry : Vector → ℕ → ℕ × ℕ
  pub list_child : Vector → Vector
  pub list_child_type : LogicalType → LogicalType
  pub struct_child_count : LogicalType → ℕ
  pub struct_child_name : LogicalType → ℕ → Option Bytes
  pub struct_child_type : LogicalType → ℕ → LogicalType
  pub struct_child : Vector → ℕ → Vector
  pub map_key_type : LogicalType → LogicalType
  pub map_value_type : LogicalType → LogicalType
  pub union_member_count : LogicalType → ℕ
  pub union_member_name : LogicalType → ℕ → Bytes
  pub union_member_type : LogicalType → ℕ → LogicalType
  pub array_child : Vector → Vector
  pub array_child_type : LogicalType → LogicalType
  pub array_size : LogicalType → ℕ
  pub variant_to_vector : Vector → ℕ → Option (Vector × LogicalType)
  -- PHP: JSON, the text of a value that is no array, and the key that a string becomes.
  pub json_decode : Bytes → Option Zval
  pub scalar_string : Zval → Bytes
  pub symtable_key : Bytes → Key
  pub json_encode : Zval → Option Bytes

-- The integer that a word of `2 * half` values stands for.
abbrev pub signed_word : ℕ → ℕ → ℤ
signed_word half w = if ltb w half then pos w else negsuc (2 * half - w - 1)

-- The words of a wide integer that a signed word is widened to.
abbrev pub widen : ℕ → ℕ → Huge
widen half w =
    if ltb w half
    then record { upper = 0; lower = w }
    else record { upper = minus_one; lower = 2 ^ 64 - (2 * half - w) }

-- `snprintf` with "%" PRIu64: the digits of a number, with fuel for twenty.
unfoldable pub digits : ℕ → ℕ → Bytes
digits zero n = []
digits (suc f) n =
    let more = digits f (n / 10) in if ltb n 10 then (n + 48) ∷ [] else more ++ (n % 10 + 48) ∷ []

abbrev pub print_u64 : ℕ → Bytes
print_u64 = digits 20

abbrev pub text_or_null : Option Bytes → Zval
text_or_null none = Zval.null
text_or_null (some s) = Zval.string s

-- `isnan`, `isinf` and the sign of a float of 32 bits, and of one of 64.
abbrev pub is_nan32 : ℕ → Bool
is_nan32 w = w / 2 ^ 23 % 2 ^ 8 == 255 && not (w % 2 ^ 23 == 0)

abbrev pub is_inf32 : ℕ → Bool
is_inf32 w = w / 2 ^ 23 % 2 ^ 8 == 255 && w % 2 ^ 23 == 0

abbrev pub is_nan64 : ℕ → Bool
is_nan64 w = w / 2 ^ 52 % 2 ^ 11 == 2047 && not (w % 2 ^ 52 == 0)

abbrev pub is_inf64 : ℕ → Bool
is_inf64 w = w / 2 ^ 52 % 2 ^ 11 == 2047 && w % 2 ^ 52 == 0

abbrev pub nan_bits : ℕ
nan_bits = 0x7ff8_0000_0000_0000

-- An infinity with the sign that the test `val > 0` gives.
abbrev pub infinity_bits : Bool → ℕ
infinity_bits true = 0x7ff0_0000_0000_0000
infinity_bits false = 0xfff0_0000_0000_0000

-- An alias other than JSON forces the text of the value.
unfoldable pub effective_type : Option Bytes → TypeId → TypeId
effective_type none t = t
effective_type (some []) t = t
effective_type (some (c ∷ cs)) t = if bytes_eq (c ∷ cs) (codes "JSON") then t else TypeId.unlisted

abbrev pub is_json : Option Bytes → Bool
is_json none = false
is_json (some s) = bytes_eq s (codes "JSON")

module _ (k : Columns) where
  open k use {Vector, LogicalType}

  -- `zval_to_map_key`: the parts of an array are joined.
  unfoldable mutual
    pub zval_to_map_key : Zval → Bytes
    zval_to_map_key (Zval.array es) = join_keys none es
    zval_to_map_key Zval.null = k.scalar_string Zval.null
    zval_to_map_key (Zval.bool b) = k.scalar_string (Zval.bool b)
    zval_to_map_key (Zval.long n) = k.scalar_string (Zval.long n)
    zval_to_map_key (Zval.double w) = k.scalar_string (Zval.double w)
    zval_to_map_key (Zval.string s) = k.scalar_string (Zval.string s)

    pub join_keys : Option Bytes → Entries → Bytes
    join_keys none end = []
    join_keys (some result) end = result
    join_keys none (entry j v rest) = join_keys (some (zval_to_map_key v)) rest
    join_keys (some result) (entry j v rest) =
        join_keys (some (result ++ (codes ", " ++ zval_to_map_key v))) rest

  -- The conversion of a part, as the loops below call it.
  abbrev pub Conversion : Type 0
  Conversion = Vector → LogicalType → ℕ → Option Zval

  -- The loop of a LIST and of an ARRAY, over so many rows from an index on.
  unfoldable pub list_items : Conversion → Vector → LogicalType → ℕ → ℕ → Entries → Option Entries
  list_items conv v t i zero acc = some acc
  list_items conv v t i (suc n) acc = elim (conv v t i) [
    | none ↦ none
    | some z ↦ list_items conv v t (i + 1) n (add_next_index z acc)
  ]

  -- A field without a name is appended.
  abbrev pub add_field : Option Bytes → Zval → Entries → Entries
  add_field none z acc = add_next_index z acc
  add_field (some []) z acc = add_next_index z acc
  add_field (some (c ∷ cs)) z acc = update (k.symtable_key (c ∷ cs)) z acc

  unfoldable pub struct_items :
      Conversion → Vector → LogicalType → ℕ → ℕ → ℕ → Entries → Option Entries
  struct_items conv v t row i zero acc = some acc
  struct_items conv v t row i (suc n) acc =
      elim (conv (k.struct_child v i) (k.struct_child_type t i) row) [
        | none ↦ none
        | some z ↦ struct_items conv v t row (i + 1) n (add_field (k.struct_child_name t i) z acc)
      ]

  -- The key of a map entry becomes a string.
  unfoldable pub map_items : Conversion → Vector → LogicalType → ℕ → ℕ → Entries → Option Entries
  map_items conv v t i zero acc = some acc
  map_items conv v t i (suc n) acc =
      elim (conv (k.struct_child (k.list_child v) 0) (k.map_key_type t) i) [
        | none ↦ none
        | some key ↦ elim (conv (k.struct_child (k.list_child v) 1) (k.map_value_type t) i) [
          | none ↦ none
          | some z ↦
              map_items conv v t (i + 1) n (update (k.symtable_key (zval_to_map_key key)) z acc)
        ]
      ]

  abbrev pub as_array : Option Entries → Option Zval
  as_array none = none
  as_array (some es) = some (Zval.array es)

  -- `case DUCKDB_TYPE_DECIMAL`, once the words are known.
  unfoldable pub decimal_words : Vector → LogicalType → ℕ → Huge → Zval
  decimal_words v t row h =
      if decimal_is_double h
      then Zval.double (k.decimal_to_double t h)
      else text_or_null (k.get_string v row)

  unfoldable pub convert_decimal : TypeId → Vector → LogicalType → ℕ → Zval
  convert_decimal TypeId.smallint v t row = decimal_words v t row (widen (2 ^ 15) (k.word 16 v row))
  convert_decimal TypeId.integer v t row = decimal_words v t row (widen (2 ^ 31) (k.word 32 v row))
  convert_decimal TypeId.bigint v t row = decimal_words v t row (widen (2 ^ 63) (k.word 64 v row))
  convert_decimal TypeId.hugeint v t row = decimal_words v t row (k.huge v row)
  convert_decimal _ v t row = text_or_null (k.get_string v row)

  unfoldable pub convert_float : ℕ → Zval
  convert_float w =
      if is_nan32 w
      then Zval.double nan_bits
      else if is_inf32 w
      then Zval.double (infinity_bits (ltb w (2 ^ 31)))
      else Zval.double (k.reprint_float w)

  unfoldable pub convert_double : ℕ → Zval
  convert_double w =
      if is_nan64 w
      then Zval.double nan_bits
      else if is_inf64 w
      then Zval.double (infinity_bits (ltb w (2 ^ 63)))
      else Zval.double w

  unfoldable pub convert_ubigint : ℕ → Zval
  convert_ubigint w = if leb w long_max then Zval.long (pos w) else Zval.string (print_u64 w)

  unfoldable pub convert_varchar : Vector → LogicalType → ℕ → Zval
  convert_varchar v t row =
      let s = k.string_data v row in
      let decoded : Zval = elim (k.json_decode s) [ none ↦ Zval.string s | some z ↦ z ] in
      if is_json (k.get_alias t) then decoded else Zval.string s
