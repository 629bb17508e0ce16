-- ===== src/Value/Structs.antt =====
-- duckdb_statement.c: what a row of a STRUCT and of an ARRAY becomes.
use pdo_duckdb_php.Common.{
  ℕ, zero, suc, ◌+◌, ◌*◌, ◌≤◌, ◌<◌, true, [], ◌∷◌, Option, none, some, ◌≡◌, ◌≢◌, ◌∙◌, refl, sym, ap,
  inl, inr, arith, Bytes, Bool-cases,
}
use pdo_duckdb_php.Types.{TypeId}
use pdo_duckdb_php.Value.{Key, Zval, Entries, end, entry, key_eq, update, append, next_index}
use pdo_duckdb_php.Value.Convert.{
  Columns, Conversion, effective_type, struct_items, add_field, as_array,
}
use pdo_duckdb_php.Value.Column.{convert, duckdb_val_from_vector}
use pdo_duckdb_php.Value.Lists.{listing, joined, joined-append, joined-end, list_items-listing}
use pdo_duckdb_php.Value.Maps.{lookup, lookup-update, key_eq→eq}

-- The entries with the keys and the values of so many indices, from one on.
abbrev pub fields : (ℕ → Key) → (ℕ → Zval) → ℕ → ℕ → Entries
fields key f i zero = end
fields key f i (suc n) = entry (key i) (f i) (fields key f (i + 1) n)

update-append :
    (k : Key) (v : Zval) (es : Entries) → lookup k es ≡ none → update k v es ≡ append k v es
unfolding update append
update-append k v end h = refl
update-append k v (entry l w rest) h = elim (Bool-cases (key_eq l k)) [
  | inl same ↦ cc (h, same)
  | inr other ↦ rw (other) (ap (entry l w) (update-append k v rest (ground (arith, h))))
]

-- A key that is put in leaves another one out.
lookup-append :
    (j k : Key) (v : Zval) (es : Entries)
    → k ≢ j
    → lookup k es ≡ none
    → lookup j es ≡ none
    → lookup j (append k v es) ≡ none
lookup-append j k v es differ hk hj = elim (Bool-cases (key_eq k j)) [
  | inl same ↦ absurd (differ (key_eq→eq k j same))
  | inr other ↦
      ap (lookup j) (sym (update-append k v es hk)) ∙ lookup-update j k v es ∙ rw (other) hj
]

module _ (k : Columns) where
  -- The name of a field is there, and stands for a key.
  abbrev pub IsNamed : Option Bytes → Key → Type 0
  IsNamed (some (c ∷ cs)) key = k.symtable_key (c ∷ cs) ≡ key
  IsNamed (some []) key = ⊥
  IsNamed none key = ⊥

  add_field-named :
      (o : Option Bytes) (key : Key) (z : Zval) (acc : Entries)
      → IsNamed o key
      → lookup key acc ≡ none
      → add_field k o z acc ≡ append key z acc
  add_field-named (some (c ∷ cs)) key z acc named absent =
      ap (λ x. update x z acc) named ∙ update-append key z acc absent
  add_field-named (some []) key z acc named absent = absurd named
  add_field-named none key z acc named absent = absurd named

  struct_items-fields :
      (conv : Conversion k) (v : k.Vector) (t : k.LogicalType) (row : ℕ) (key : ℕ → Key)
      (f : ℕ → Zval) (i n : ℕ) (acc : Entries)
      → ((j : ℕ) → i ≤ j → j < i + n → IsNamed (k.struct_child_name t j) (key j))
      → ((j l : ℕ) → i ≤ j → j < l → l < i + n → key j ≢ key l)
      → ((j : ℕ)
          → i ≤ j
          → j < i + n
          → conv (k.struct_child v j) (k.struct_child_type t j) row ≡ some (f j))
      → ((j : ℕ) → i ≤ j → j < i + n → lookup (key j) acc ≡ none)
      → struct_items k conv v t row i n acc ≡ some (joined acc (fields key f i n))
  unfolding struct_items
  struct_items-fields conv v t row key f i zero acc named apart h absent = rw (joined-end acc)
  struct_items-fields conv v t row key f i (suc n) acc named apart h absent =
      let here = absent i (omega arith) (omega arith) in
      rw (
        h i (omega arith) (omega arith),
        struct_items,
        add_field-named (k.struct_child_name t i) (key i) (f i) acc
            (named i (omega arith) (omega arith)) here,
        struct_items-fields conv v t row key f (i + 1) n (append (key i) (f i) acc)
            (λ j a b. named j (omega arith) (omega arith))
            (λ j l a b c. apart j l (omega arith) b (omega arith))
            (λ j a b. h j (omega arith) (omega arith))
            (λ j a b.
              lookup-append (key j) (key i) (f i) acc
                (apart i j (omega arith) (omega arith) (omega arith)) here
                (absent j (omega arith) (omega arith))),
        joined-append (key i) (f i) acc (fields key f (i + 1) n),
      )

  -- A valid row of a STRUCT, whose fields have names that stand for different keys and values in this row
  -- that convert, becomes the PHP array of these values under these keys, in the order of the fields. The
  -- type has no alias but JSON.
  pub duckdb_val_from_vector-struct :
      (fuel : ℕ) (v : k.Vector) (t : k.LogicalType) (row : ℕ) (key : ℕ → Key) (f : ℕ → Zval)
      → k.row_is_valid v row ≡ true
      → effective_type (k.get_alias t) (k.get_type_id t) ≡ TypeId.struct
      → ((i : ℕ) → i < k.struct_child_count t → IsNamed (k.struct_child_name t i) (key i))
      → ((i j : ℕ) → i < j → j < k.struct_child_count t → key i ≢ key j)
      → ((i : ℕ)
          → i < k.struct_child_count t
          → duckdb_val_from_vector k fuel (k.struct_child v i) (k.struct_child_type t i) row
            ≡ some (f i))
      → duckdb_val_from_vector k (suc fuel) v t row
        ≡ some (Zval.array (fields key f 0 (k.struct_child_count t)))
  unfolding duckdb_val_from_vector convert
  duckdb_val_from_vector-struct fuel v t row key f valid is_struct named apart h =
      rw (valid, is_struct, duckdb_val_from_vector)
        (ap (as_array k) (
          struct_items-fields (duckdb_val_from_vector k fuel) v t row key f 0
            (k.struct_child_count t) end (λ j a b. named j (omega arith))
            (λ i j a b c. apart i j b (omega arith)) (λ j a b. h j (omega arith)) (λ j a b. refl)))

  -- A valid row of an ARRAY whose elements convert becomes the PHP list of them, in order, under the keys
  -- 0, 1, …: as many as the size of the type, from the row's number times this size on. The type has no
  -- alias but JSON.
  pub duckdb_val_from_vector-array :
      (fuel : ℕ) (v : k.Vector) (t : k.LogicalType) (row : ℕ) (f : ℕ → Zval)
      → k.row_is_valid v row ≡ true
      → effective_type (k.get_alias t) (k.get_type_id t) ≡ TypeId.array
      → ((i : ℕ)
          → row * k.array_size t ≤ i
          → i < row * k.array_size t + k.array_size t
          → duckdb_val_from_vector k fuel (k.array_child v) (k.array_child_type t) i ≡ some (f i))
      → duckdb_val_from_vector k (suc fuel) v t row
        ≡ some (Zval.array (listing f (row * k.array_size t) 0 (k.array_size t)))
  unfolding duckdb_val_from_vector convert next_index
  duckdb_val_from_vector-array fuel v t row f valid is_array h =
      rw (valid, is_array, duckdb_val_from_vector)
        (ap (as_array k) (
          list_items-listing k (duckdb_val_from_vector k fuel) (k.array_child v)
            (k.array_child_type t) f (row * k.array_size t) (k.array_size t) end h))
