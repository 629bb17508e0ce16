-- ===== src/Value/Maps.antt =====
-- duckdb_statement.c: what a row of a MAP becomes.
use pdo_duckdb_php.Common.{
  ℕ, zero, suc, ◌+◌, ◌≤◌, ◌<◌, true, [], ◌∷◌, Option, none, some, ◌≡◌, ◌∙◌, refl, sym, ap, inl, inr,
  arith, if◌then◌else◌, Bytes, bytes_eq, Bool-cases,
}
use pdo_duckdb_php.Common.Int.{pos, negsuc}
use pdo_duckdb_php.Types.{TypeId}
use pdo_duckdb_php.Value.{Key, index, name, Zval, Entries, end, entry, key_eq, update}
use pdo_duckdb_php.Value.Convert.{
  Columns, Conversion, effective_type, map_items, as_array, zval_to_map_key,
}
use pdo_duckdb_php.Value.Column.{convert, duckdb_val_from_vector}

bytes_eq_self : (s : Bytes) → bytes_eq s s ≡ true
unfolding bytes_eq
bytes_eq_self [] = refl
bytes_eq_self (c ∷ s) = ground (arith, bytes_eq_self s)

bytes_eq→eq : (s t : Bytes) → bytes_eq s t ≡ true → s ≡ t
unfolding bytes_eq
bytes_eq→eq [] [] e = refl
bytes_eq→eq [] (d ∷ t) e = cc
bytes_eq→eq (c ∷ s) [] e = cc
bytes_eq→eq (c ∷ s) (d ∷ t) e = ground (arith, bytes_eq→eq s t)

key_eq_self : (k : Key) → key_eq k k ≡ true
unfolding key_eq
key_eq_self (index (pos n)) = ground arith
key_eq_self (index (negsuc n)) = ground arith
key_eq_self (name s) = bytes_eq_self s

pub key_eq→eq : (j k : Key) → key_eq j k ≡ true → j ≡ k
unfolding key_eq
key_eq→eq (index (pos n)) (index (pos m)) e = ground arith
key_eq→eq (index (negsuc n)) (index (negsuc m)) e = ground arith
key_eq→eq (index (pos n)) (index (negsuc m)) e = cc
key_eq→eq (index (negsuc n)) (index (pos m)) e = cc
key_eq→eq (name s) (name t) e = ap name (bytes_eq→eq s t e)
key_eq→eq (index i) (name t) e = cc
key_eq→eq (name s) (index i) e = cc

key_eq_sym : (j k : Key) → key_eq j k ≡ true → key_eq k j ≡ true
key_eq_sym j k e = rw (key_eq→eq j k e) (key_eq_self k)

key_eq_join : (j k l : Key) → key_eq j l ≡ true → key_eq k l ≡ true → key_eq j k ≡ true
key_eq_join j k l e e' = rw (key_eq→eq j l e, key_eq→eq k l e') (key_eq_self l)

-- The value of a key in an array.
abbrev pub lookup : Key → Entries → Option Zval
lookup k end = none
lookup k (entry j v rest) = let below = lookup k rest in if key_eq j k then some v else below

-- No key stands twice.
abbrev pub IsUnique : Entries → Type 0
IsUnique end = Unit
IsUnique (entry j v rest) = (lookup j rest ≡ none) × IsUnique rest

pub lookup-update :
    (j k : Key) (v : Zval) (es : Entries)
    → lookup j (update k v es) ≡ (if key_eq k j then some v else lookup j es)
unfolding update
lookup-update j k v end = refl
lookup-update j k v (entry l w rest) = elim (Bool-cases (key_eq l k)) [
  | inl same ↦ rw (same, key_eq→eq l k same) (ground arith)
  | inr other ↦ rw (other, update) (ground (arith, lookup-update j k v rest, key_eq_join l k j))
]

update-IsUnique : (k : Key) (v : Zval) (es : Entries) → IsUnique es → IsUnique (update k v es)
unfolding update
update-IsUnique k v end u = (refl, tt)
update-IsUnique k v (entry l w rest) u = elim (Bool-cases (key_eq l k)) [
  | inl same ↦ rw (same, update) u
  | inr other ↦
      rw (other, update)
        (
          ground (arith, lookup-update l k v rest, key_eq_sym k l, u.0),
          update-IsUnique k v rest u.1,
        )
]

-- The value of the last entry, of so many from an index on, that has a key.
abbrev pub last_value : (ℕ → Key) → (ℕ → Zval) → Key → ℕ → ℕ → Option Zval
last_value f g key i zero = none
last_value f g key i (suc n) =
    let before = last_value f g key i n in
    if key_eq (f (i + n)) key then some (g (i + n)) else before

abbrev or_else : Option Zval → Option Zval → Option Zval
or_else none o = o
or_else (some v) o = some v

-- The first entry counts where no later one has its key.
last_value_first :
    (f : ℕ → Key) (g : ℕ → Zval) (key : Key) (i n : ℕ) (o : Option Zval)
    → or_else (last_value f g key i (suc n)) o
      ≡ or_else (last_value f g key (i + 1) n) (if key_eq (f i) key then some (g i) else o)
last_value_first f g key i zero o = let e : i + 0 ≡ i = omega arith in rw e (ground arith)
last_value_first f g key i (suc n) o =
    let e : i + suc n ≡ i + 1 + n = omega arith in
    rw e (ground (arith, last_value_first f g key i n o))

or_else-none : (o : Option Zval) → or_else o none ≡ o
or_else-none none = refl
or_else-none (some v) = refl

module _ (k : Columns) where
  -- The key that an entry gets.
  abbrev pub key_of : Zval → Key
  key_of a = k.symtable_key (zval_to_map_key k a)

  -- An array with the entries of `acc` and then those of the MAP.
  record IsMap (a g : ℕ → Zval) (i n : ℕ) (acc es : Entries) : Type 0 where
    found :
        (key : Key)
        → lookup key es ≡ or_else (last_value (λ j. key_of (a j)) g key i n) (lookup key acc)
    unique : IsUnique es

  map_items-IsMap :
      (conv : Conversion k) (v : k.Vector) (t : k.LogicalType) (a g : ℕ → Zval) (i n : ℕ)
      (acc : Entries)
      → ((j : ℕ)
          → i ≤ j
          → j < i + n
          → conv (k.struct_child (k.list_child v) 0) (k.map_key_type t) j ≡ some (a j))
      → ((j : ℕ)
          → i ≤ j
          → j < i + n
          → conv (k.struct_child (k.list_child v) 1) (k.map_value_type t) j ≡ some (g j))
      → IsUnique acc
      → (es : Entries) × (map_items k conv v t i n acc ≡ some es) × IsMap a g i n acc es
  unfolding map_items
  map_items-IsMap conv v t a g i zero acc ha hg u =
      (acc, refl, record { found = λ key. refl; unique = u })
  map_items-IsMap conv v t a g i (suc n) acc ha hg u =
      let acc' = update (key_of (a i)) (g i) acc in
      let (es, e, m) =
        map_items-IsMap conv v t a g (i + 1) n acc' (λ j x y. ha j (omega arith) (omega arith))
          (λ j x y. hg j (omega arith) (omega arith))
          (update-IsUnique (key_of (a i)) (g i) acc u) in
      (
        es,
        rw (ha i (omega arith) (omega arith), hg i (omega arith) (omega arith), map_items) e,
        record {
          found = λ key.
              m.found key
              ∙ ap (or_else (last_value (λ j. key_of (a j)) g key (i + 1) n))
                  (lookup-update key (key_of (a i)) (g i) acc)
              ∙ sym (last_value_first (λ j. key_of (a j)) g key i n (lookup key acc));
          unique = m.unique;
        },
      )

  -- A valid row of a MAP where each key and value of the row converts becomes a PHP array in which no key stands twice:
  -- looking up a key gives the value of the last entry of the row whose key becomes this one, and nothing
  -- where there is none. The type has no alias but JSON.
  pub duckdb_val_from_vector-map :
      (fuel : ℕ) (v : k.Vector) (t : k.LogicalType) (row : ℕ) (a g : ℕ → Zval)
      → k.row_is_valid v row ≡ true
      → effective_type (k.get_alias t) (k.get_type_id t) ≡ TypeId.map
      → ((i : ℕ)
          → (k.list_entry v row).0 ≤ i
          → i < (k.list_entry v row).0 + (k.list_entry v row).1
          → duckdb_val_from_vector k fuel (k.struct_child (k.list_child v) 0) (k.map_key_type t) i
            ≡ some (a i))
      → ((i : ℕ)
          → (k.list_entry v row).0 ≤ i
          → i < (k.list_entry v row).0 + (k.list_entry v row).1
          → duckdb_val_from_vector k fuel (k.struct_child (k.list_child v) 1) (k.map_value_type t) i
            ≡ some (g i))
      → (es : Entries) × (duckdb_val_from_vector k (suc fuel) v t row ≡ some (Zval.array es))
        × ((key : Key)
            → lookup key es
              ≡ last_value (λ j. key_of (a j)) g key (k.list_entry v row).0 (k.list_entry v row).1)
        × IsUnique es
  unfolding duckdb_val_from_vector convert
  duckdb_val_from_vector-map fuel v t row a g valid is_map ha hg =
      let (es, e, m) =
        map_items-IsMap (duckdb_val_from_vector k fuel) v t a g (k.list_entry v row).0
          (k.list_entry v row).1 end ha hg tt in
      (
        es,
        rw (valid, is_map, duckdb_val_from_vector) (ap (as_array k) e),
        λ key. m.found key ∙ or_else-none _,
        m.unique,
      )
