-- ===== src/Value/Total.antt =====
-- duckdb_statement.c: the recursion of `duckdb_val_from_vector` and the depth of a type.
use pdo_duckdb_php.Common.{
  ℕ, zero, suc, ◌+◌, ◌<◌, ◌||◌, Option, none, some, ◌≡◌, ◌≢◌, refl, arith, [], ◌∷◌, Bytes, inl, inr,
  leb, ◌==◌, Bool-cases, Option-cases,
}
use pdo_duckdb_php.Types.{TypeId}
use pdo_duckdb_php.Value.{Zval, Entries, end, add_next_index, update}
use pdo_duckdb_php.Value.Convert.{
  Columns, Conversion, effective_type, list_items, struct_items, map_items, as_array, add_field,
  zval_to_map_key,
}
use pdo_duckdb_php.Value.Column.{convert_union, convert_variant, convert, duckdb_val_from_vector}

-- A depth of types: the parts of a nested type are less deep, and so is what a VARIANT holds.
pub record Depth (k : Columns) : Type 0 where
  pub depth : k.Vector → k.LogicalType → ℕ
  pub list_depth :
      (v : k.Vector) (t : k.LogicalType)
      → k.get_type_id t ≡ TypeId.list
      → depth (k.list_child v) (k.list_child_type t) < depth v t
  pub array_depth :
      (v : k.Vector) (t : k.LogicalType)
      → k.get_type_id t ≡ TypeId.array
      → depth (k.array_child v) (k.array_child_type t) < depth v t
  pub struct_depth :
      (v : k.Vector) (t : k.LogicalType) (i : ℕ)
      → k.get_type_id t ≡ TypeId.struct
      → depth (k.struct_child v i) (k.struct_child_type t i) < depth v t
  pub key_depth :
      (v : k.Vector) (t : k.LogicalType)
      → k.get_type_id t ≡ TypeId.map
      → depth (k.struct_child (k.list_child v) 0) (k.map_key_type t) < depth v t
  pub value_depth :
      (v : k.Vector) (t : k.LogicalType)
      → k.get_type_id t ≡ TypeId.map
      → depth (k.struct_child (k.list_child v) 1) (k.map_value_type t) < depth v t
  pub union_depth :
      (v : k.Vector) (t : k.LogicalType) (i : ℕ)
      → k.get_type_id t ≡ TypeId.union
      → depth (k.struct_child v (i + 1)) (k.union_member_type t i) < depth v t
  pub variant_depth :
      (v u : k.Vector) (t s : k.LogicalType) (row : ℕ)
      → k.get_type_id t ≡ TypeId.variant
      → k.variant_to_vector v row ≡ some (u, s)
      → depth u s < depth v t

module _ (k : Columns) (conv : Conversion k) where
  -- The call gives a value.
  abbrev Ends : k.Vector → k.LogicalType → Type 0
  Ends v t = (row : ℕ) → (z : Zval) × (conv v t row ≡ some z)

  list_items_end :
      (v : k.Vector) (t : k.LogicalType) (i n : ℕ) (acc : Entries)
      → Ends v t
      → (es : Entries) × (list_items k conv v t i n acc ≡ some es)
  unfolding list_items
  list_items_end v t i zero acc h = (acc, refl)
  list_items_end v t i (suc n) acc h =
      let (z, e) = h i in
      let (es, e') = list_items_end v t (i + 1) n (add_next_index z acc) h in
      (es, rw (e, list_items) e')

  struct_items_end :
      (v : k.Vector) (t : k.LogicalType) (row i n : ℕ) (acc : Entries)
      → ((j : ℕ) → Ends (k.struct_child v j) (k.struct_child_type t j))
      → (es : Entries) × (struct_items k conv v t row i n acc ≡ some es)
  unfolding struct_items
  struct_items_end v t row i zero acc h = (acc, refl)
  struct_items_end v t row i (suc n) acc h =
      let (z, e) = h i row in
      let (es, e') =
        struct_items_end v t row (i + 1) n (add_field k (k.struct_child_name t i) z acc) h in
      (es, rw (e, struct_items) e')

  map_items_end :
      (v : k.Vector) (t : k.LogicalType) (i n : ℕ) (acc : Entries)
      → Ends (k.struct_child (k.list_child v) 0) (k.map_key_type t)
      → Ends (k.struct_child (k.list_child v) 1) (k.map_value_type t)
      → (es : Entries) × (map_items k conv v t i n acc ≡ some es)
  unfolding map_items
  map_items_end v t i zero acc h h' = (acc, refl)
  map_items_end v t i (suc n) acc h h' =
      let (key, e) = h i in
      let (z, e') = h' i in
      let (es, e'') =
        map_items_end v t (i + 1) n (update (k.symtable_key (zval_to_map_key k key)) z acc) h h' in
      (es, rw (e, e', map_items) e'')

  array_end :
      (o : Option Entries) → (es : Entries) × (o ≡ some es) → (z : Zval) × (as_array k o ≡ some z)
  array_end o (es, e) = (Zval.array es, rw e)

module _ (k : Columns) (r : Depth k) where
  -- Every conversion of a part that is less deep gives a value.
  abbrev Below : Conversion k → k.Vector → k.LogicalType → Type 0
  Below conv v t = (u : k.Vector) (s : k.LogicalType) → r.depth u s < r.depth v t → Ends k conv u s

  convert_union_end :
      (conv : Conversion k) (v : k.Vector) (t : k.LogicalType) (row : ℕ)
      → ((i : ℕ) → Ends k conv (k.struct_child v (i + 1)) (k.union_member_type t i))
      → (z : Zval) × (convert_union k conv v t row ≡ some z)
  unfolding convert_union
  convert_union_end conv v t row h =
      let tag = k.word 8 (k.struct_child v 0) row in
      let count = k.union_member_count t in
      let (z, e) = h tag row in
      elim (Bool-cases (leb count tag || count == 0)) [
        | inl out ↦ (Zval.null, rw (out, convert_union))
        | inr within ↦ (
          Zval.array (update (k.symtable_key (k.union_member_name t tag)) z end),
          rw (within, e, convert_union),
        )
      ]

  convert_variant_end :
      (conv : Conversion k) (v : k.Vector) (row : ℕ)
      → ((u : k.Vector) (s : k.LogicalType)
          → k.variant_to_vector v row ≡ some (u, s)
          → Ends k conv u s)
      → (z : Zval) × (convert_variant k conv v row ≡ some z)
  unfolding convert_variant
  convert_variant_end conv v row h = elim (Option-cases (k.variant_to_vector v row)) [
    | inl e ↦ (Zval.null, rw (e, convert_variant))
    | inr ((u, s), e) ↦ let (z, e') = h u s e 0 in (z, rw (e, convert_variant) e')
  ]

  convert_end :
      (conv : Conversion k) (ty : TypeId) (v : k.Vector) (t : k.LogicalType) (row : ℕ)
      → (ty ≢ TypeId.unlisted → k.get_type_id t ≡ ty)
      → Below conv v t
      → (z : Zval) × (convert k conv ty v t row ≡ some z)
  unfolding convert
  convert_end conv TypeId.list v t row same below =
      array_end k conv _
        (list_items_end k conv _ _ _ _ end (below _ _ (r.list_depth v t (same (λ e. cc)))))
  convert_end conv TypeId.array v t row same below =
      array_end k conv _
        (list_items_end k conv _ _ _ _ end (below _ _ (r.array_depth v t (same (λ e. cc)))))
  convert_end conv TypeId.struct v t row same below = array_end k conv _ (
      struct_items_end k conv v t row 0 _ end
        (λ i. below _ _ (r.struct_depth v t i (same (λ e. cc)))))
  convert_end conv TypeId.map v t row same below = array_end k conv _ (
      map_items_end k conv v t _ _ end (below _ _ (r.key_depth v t (same (λ e. cc))))
        (below _ _ (r.value_depth v t (same (λ e. cc)))))
  convert_end conv TypeId.union v t row same below =
      convert_union_end conv v t row (λ i. below _ _ (r.union_depth v t i (same (λ e. cc))))
  convert_end conv TypeId.variant v t row same below =
      convert_variant_end conv v row
        (λ u s e. below u s (r.variant_depth v u t s row (same (λ e. cc)) e))
  convert_end conv _ v t row same below = (_, refl)

  effective_type-same :
      (a : Option Bytes) (ty : TypeId)
      → effective_type a ty ≢ TypeId.unlisted
      → ty ≡ effective_type a ty
  unfolding effective_type
  effective_type-same none ty n = refl
  effective_type-same (some []) ty n = refl
  effective_type-same (some (c ∷ cs)) ty n = ground arith

  val_from_vector_end :
      (fuel : ℕ) (v : k.Vector) (t : k.LogicalType)
      → r.depth v t < fuel
      → Ends k (duckdb_val_from_vector k fuel) v t
  unfolding duckdb_val_from_vector
  val_from_vector_end zero v t h row = absurd (omega arith)
  val_from_vector_end (suc fuel) v t h row =
      let (z, e) =
        convert_end (duckdb_val_from_vector k fuel)
          (effective_type (k.get_alias t) (k.get_type_id t)) v t row
          (effective_type-same (k.get_alias t) (k.get_type_id t))
          (λ u s b. val_from_vector_end fuel u s (omega arith)) in
      elim (Bool-cases (k.row_is_valid v row)) [
        | inl valid ↦ (z, rw (valid, duckdb_val_from_vector) e)
        | inr invalid ↦ (Zval.null, rw (invalid, duckdb_val_from_vector))
      ]

  -- Where the parts of a type are less deep than it, the conversion of every row ends with a value,
  -- with any fuel above the depth.
  pub duckdb_val_from_vector-ends :
      (fuel : ℕ) (v : k.Vector) (t : k.LogicalType) (row : ℕ)
      → r.depth v t < fuel
      → (z : Zval) × (duckdb_val_from_vector k fuel v t row ≡ some z)
  duckdb_val_from_vector-ends fuel v t row h = val_from_vector_end fuel v t h row
