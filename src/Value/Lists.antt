-- ===== src/Value/Lists.antt =====
-- duckdb_statement.c: what a row of a LIST becomes.
use pdo_duckdb_php.Common.{ℕ, zero, suc, ◌+◌, ◌≤◌, ◌<◌, true, some, ◌≡◌, refl, ap, arith}
use pdo_duckdb_php.Common.Int.{pos, negsuc}
use pdo_duckdb_php.Value.{
  Key, index, name, Zval, Entries, end, entry, next_index, append, add_next_index,
}
use pdo_duckdb_php.Value.Convert.{Columns, Conversion, list_items, as_array, effective_type}
use pdo_duckdb_php.Types.{TypeId}
use pdo_duckdb_php.Value.Column.{convert, duckdb_val_from_vector}

-- The list of `f i`, `f (i + 1)`, …, under the keys from `j` on.
abbrev pub listing : (ℕ → Zval) → ℕ → ℕ → ℕ → Entries
listing f i j zero = end
listing f i j (suc n) = entry (index (pos j)) (f i) (listing f (i + 1) (j + 1) n)

abbrev pub joined : Entries → Entries → Entries
joined end b = b
joined (entry k v a) b = entry k v (joined a b)

next_index-append :
    (m : ℕ) (v : Zval) (a : Entries)
    → next_index a ≤ m
    → next_index (append (index (pos m)) v a) ≡ m + 1
unfolding next_index append
next_index-append m v end h = ground arith
next_index-append m v (entry (index (pos n)) w a) h = ground (arith, next_index-append m v a)
next_index-append m v (entry (index (negsuc n)) w a) h = next_index-append m v a h
next_index-append m v (entry (name s) w a) h = next_index-append m v a h

pub joined-append :
    (k : Key) (v : Zval) (a b : Entries) → joined (append k v a) b ≡ joined a (entry k v b)
unfolding append
joined-append k v end b = refl
joined-append k v (entry j w a) b = ap (entry j w) (joined-append k v a b)

pub joined-end : (a : Entries) → joined a end ≡ a
joined-end end = refl
joined-end (entry j w a) = ap (entry j w) (joined-end a)

pub list_items-listing :
    (k : Columns) (conv : Conversion k) (v : k.Vector) (t : k.LogicalType) (f : ℕ → Zval) (i n : ℕ)
    (acc : Entries)
    → ((j : ℕ) → i ≤ j → j < i + n → conv v t j ≡ some (f j))
    → list_items k conv v t i n acc ≡ some (joined acc (listing f i (next_index acc) n))
unfolding list_items add_next_index
list_items-listing k conv v t f i zero acc h = rw (joined-end acc)
list_items-listing k conv v t f i (suc n) acc h =
    let m = next_index acc in
    rw (
      h i (omega arith) (omega arith),
      list_items,
      list_items-listing k conv v t f (i + 1) n (append (index (pos m)) (f i) acc)
          (λ j a b. h j (omega arith) (omega arith)),
      next_index-append m (f i) acc (omega arith),
      joined-append (index (pos m)) (f i) acc (listing f (i + 1) (m + 1) n),
    )

-- A valid row of a LIST, whose entries convert, becomes the PHP list of the converted entries, from
-- the row's offset on, in order, under the keys 0, 1, …. The type has no alias but JSON.
pub duckdb_val_from_vector-list :
    (k : Columns) (fuel : ℕ) (v : k.Vector) (t : k.LogicalType) (row : ℕ) (f : ℕ → Zval)
    → k.row_is_valid v row ≡ true
    → effective_type (k.get_alias t) (k.get_type_id t) ≡ TypeId.list
    → ((i : ℕ)
        → (k.list_entry v row).0 ≤ i
        → i < (k.list_entry v row).0 + (k.list_entry v row).1
        → duckdb_val_from_vector k fuel (k.list_child v) (k.list_child_type t) i ≡ some (f i))
    → duckdb_val_from_vector k (suc fuel) v t row
      ≡ some (Zval.array (listing f (k.list_entry v row).0 0 (k.list_entry v row).1))
unfolding duckdb_val_from_vector convert next_index
duckdb_val_from_vector-list k fuel v t row f valid is_list h =
    rw (valid, is_list, duckdb_val_from_vector)
      (ap (as_array k) (
        list_items-listing k (duckdb_val_from_vector k fuel) (k.list_child v) (k.list_child_type t)
          f (k.list_entry v row).0 (k.list_entry v row).1 end h))
