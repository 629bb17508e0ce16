-- ===== src/Value/Column.antt =====
-- duckdb_statement.c: the switch of `duckdb_val_from_vector`, the recursion, and `duckdb_stmt_get_col`.
use pdo_duckdb_php.Common.{
  ℕ, zero, suc, ◌+◌, ◌*◌, ◌^◌, Bool, true, false, not, ◌||◌, Option, none, some, if◌then◌else◌,
  ◌==◌, leb, ◌≡◌, inl, inr, Option-cases, Bool-cases,
}
use mathlib.Core.Path.{subst}
use pdo_duckdb_php.Common.Int.{ℤ, pos, signed64, leb_ℤ, ltb_ℤ}
use pdo_duckdb_php.Types.{TypeId}
use pdo_duckdb_php.Value.{Zval, end, update}
use pdo_duckdb_php.Value.Huge.{hugeint_is_long, uhugeint_is_long}
use pdo_duckdb_php.Value.Convert.{
  Columns, Conversion, signed_word, text_or_null, effective_type, list_items, struct_items,
  map_items, as_array, convert_decimal, convert_float, convert_double, convert_ubigint,
  convert_varchar,
}

module _ (k : Columns) where
  open k use {Vector, LogicalType}

  -- `case DUCKDB_TYPE_UNION`: the tag is the first child, the members stand behind it.
  unfoldable pub convert_union : Conversion k → Vector → LogicalType → ℕ → Option Zval
  convert_union conv v t row =
      let tag = k.word 8 (k.struct_child v 0) row in
      let count = k.union_member_count t in
      let member = conv (k.struct_child v (tag + 1)) (k.union_member_type t tag) row in
      if leb count tag || count == 0 then some Zval.null else elim member [
        | none ↦ none
        | some z ↦ some (Zval.array (update (k.symtable_key (k.union_member_name t tag)) z end))
      ]

  -- `case DUCKDB_TYPE_VARIANT`
  unfoldable pub convert_variant : Conversion k → Vector → ℕ → Option Zval
  convert_variant conv v row = elim (k.variant_to_vector v row) [
    | none ↦ some Zval.null
    | some (typed_vec, typed_type) ↦ conv typed_vec typed_type 0
  ]

  -- The switch, on the type that counts.
  unfoldable pub convert : Conversion k → TypeId → Vector → LogicalType → ℕ → Option Zval
  convert conv TypeId.any v t row = some Zval.null
  convert conv TypeId.boolean v t row = some (Zval.bool (not (k.word 8 v row == 0)))
  convert conv TypeId.tinyint v t row = some (Zval.long (signed_word (2 ^ 7) (k.word 8 v row)))
  convert conv TypeId.smallint v t row = some (Zval.long (signed_word (2 ^ 15) (k.word 16 v row)))
  convert conv TypeId.integer v t row = some (Zval.long (signed_word (2 ^ 31) (k.word 32 v row)))
  convert conv TypeId.bigint v t row = some (Zval.long (signed_word (2 ^ 63) (k.word 64 v row)))
  convert conv TypeId.utinyint v t row = some (Zval.long (pos (k.word 8 v row)))
  convert conv TypeId.usmallint v t row = some (Zval.long (pos (k.word 16 v row)))
  convert conv TypeId.uinteger v t row = some (Zval.long (pos (k.word 32 v row)))
  convert conv TypeId.ubigint v t row = some (convert_ubigint k (k.word 64 v row))
  convert conv TypeId.hugeint v t row =
      let h = k.huge v row in
      some (
        if hugeint_is_long h
        then Zval.long (signed64 h.lower)
        else text_or_null (k.get_string v row))
  convert conv TypeId.uhugeint v t row =
      let h = k.huge v row in
      some (
        if uhugeint_is_long h
        then Zval.long (signed64 h.lower)
        else text_or_null (k.get_string v row))
  convert conv TypeId.float v t row = some (convert_float k (k.word 32 v row))
  convert conv TypeId.double v t row = some (convert_double k (k.word 64 v row))
  convert conv TypeId.varchar v t row = some (convert_varchar k v t row)
  convert conv TypeId.blob v t row = some (Zval.string (k.string_data v row))
  convert conv TypeId.decimal v t row = some (convert_decimal k (k.decimal_internal_type t) v t row)
  convert conv TypeId.list v t row =
      let (offset, length) = k.list_entry v row in
      as_array k (list_items k conv (k.list_child v) (k.list_child_type t) offset length end)
  convert conv TypeId.struct v t row =
      as_array k (struct_items k conv v t row 0 (k.struct_child_count t) end)
  convert conv TypeId.map v t row =
      let (offset, length) = k.list_entry v row in
      as_array k (map_items k conv v t offset length end)
  convert conv TypeId.union v t row = convert_union conv v t row
  convert conv TypeId.array v t row =
      let size = k.array_size t in
      as_array k (list_items k conv (k.array_child v) (k.array_child_type t) (row * size) size end)
  convert conv TypeId.variant v t row = convert_variant conv v row
  convert conv _ v t row = some (text_or_null (k.get_string v row))

  -- `duckdb_val_from_vector`, with fuel for the depth of the type.
  unfoldable pub duckdb_val_from_vector : ℕ → Vector → LogicalType → ℕ → Option Zval
  duckdb_val_from_vector zero v t row = none
  duckdb_val_from_vector (suc fuel) v t row = elim (k.row_is_valid v row) [
    | false ↦ some Zval.null
    | true ↦
        convert (duckdb_val_from_vector fuel) (effective_type (k.get_alias t) (k.get_type_id t)) v t
          row
  ]

  -- `ATTR_STRINGIFY_FETCHES`: arrays as JSON, where they can be encoded, and other values as text.
  unfoldable pub stringified : Zval → Zval
  stringified Zval.null = Zval.null
  stringified (Zval.array es) = elim (k.json_encode (Zval.array es)) [
    | none ↦ Zval.array es
    | some s ↦ Zval.string s
  ]
  stringified (Zval.bool b) = Zval.string (k.scalar_string (Zval.bool b))
  stringified (Zval.long n) = Zval.string (k.scalar_string (Zval.long n))
  stringified (Zval.double w) = Zval.string (k.scalar_string (Zval.double w))
  stringified (Zval.string s) = Zval.string s

  -- `duckdb_stmt_get_col`: the vector and type of each column of the current chunk, if there is one,
  -- the cursor's row, and the column asked for. The value, and what is returned.
  unfoldable pub duckdb_stmt_get_col :
      ℕ → Bool → ℤ → Option (ℤ → Vector × LogicalType) → ℕ → ℤ → Option (Zval × Bool)
  duckdb_stmt_get_col fuel stringify column_count none row colno = some (Zval.null, false)
  duckdb_stmt_get_col fuel stringify column_count (some chunk) row colno =
      let value = duckdb_val_from_vector fuel (chunk colno).0 (chunk colno).1 row in
      if ltb_ℤ colno (pos 0) || leb_ℤ column_count colno
      then some (Zval.null, false)
      else elim value [ none ↦ none | some z ↦ some (if stringify then stringified z else z, true) ]

  -- What a column may be when fetches are stringified.
  abbrev pub IsText : Zval → Type 0
  IsText Zval.null = Unit
  IsText (Zval.string s) = Unit
  IsText (Zval.array es) = k.json_encode (Zval.array es) ≡ none
  IsText _ = ⊥

  stringified-IsText : (z : Zval) → IsText (stringified z)
  unfolding stringified
  stringified-IsText (Zval.array es) = elim (Option-cases (k.json_encode (Zval.array es))) [
    | inl e ↦ rw (e, stringified) e
    | inr (s, e) ↦ rw (e, stringified) tt
  ]
  stringified-IsText Zval.null = tt
  stringified-IsText (Zval.bool b) = tt
  stringified-IsText (Zval.long n) = tt
  stringified-IsText (Zval.double w) = tt
  stringified-IsText (Zval.string s) = tt

  abbrev IsTextResult : Option (Zval × Bool) → Type 0
  IsTextResult none = Unit
  IsTextResult (some (z, b)) = IsText z

  get_col-IsTextResult :
      (fuel : ℕ) (count : ℤ) (chunk : Option (ℤ → Vector × LogicalType)) (row : ℕ) (colno : ℤ)
      → IsTextResult (duckdb_stmt_get_col fuel true count chunk row colno)
  unfolding duckdb_stmt_get_col
  get_col-IsTextResult fuel count none row colno = tt
  get_col-IsTextResult fuel count (some chunk) row colno =
      let value = duckdb_val_from_vector fuel (chunk colno).0 (chunk colno).1 row in
      elim (Bool-cases (ltb_ℤ colno (pos 0) || leb_ℤ count colno)) [
        | inl out ↦ rw (out, duckdb_stmt_get_col) tt
        | inr within ↦ elim (Option-cases value) [
          | inl stuck ↦ rw (within, stuck, duckdb_stmt_get_col) tt
          | inr (v, found) ↦ rw (within, found, duckdb_stmt_get_col) (stringified-IsText v)
        ]
      ]

  -- With stringified fetches a column is NULL or a string, or an array that JSON cannot encode.
  pub duckdb_stmt_get_col-IsText :
      (fuel : ℕ) (count : ℤ) (chunk : Option (ℤ → Vector × LogicalType)) (row : ℕ) (colno : ℤ)
      (z : Zval) (done : Bool)
      → duckdb_stmt_get_col fuel true count chunk row colno ≡ some (z, done)
      → IsText z
  duckdb_stmt_get_col-IsText fuel count chunk row colno z done e =
      subst IsTextResult e (get_col-IsTextResult fuel count chunk row colno)
