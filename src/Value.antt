-- ===== src/Value.antt =====
-- duckdb_statement.c: the values that columns become. A `zval` is a tree; a float is its bit pattern.
pub mod Huge
pub mod Convert
pub mod Column
pub mod Lists
pub mod Maps
pub mod Structs
pub mod Numbers
pub mod Total
mod Tests
use pdo_duckdb_php.Common.{
  ℕ, ◌+◌, Bool, true, false, ◌&&◌, ◌||◌, Option, none, some, if◌then◌else◌, ◌==◌, leb, Bytes,
  bytes_eq, ltb,
}
use pdo_duckdb_php.Common.Int.{ℤ, pos, negsuc}

-- A key of a PHP array.
pub data Key : Type 0 where
  index : ℤ → Key
  name : Bytes → Key

mutual
  pub data Zval : Type 0 where
    null : Zval
    bool : Bool → Zval
    long : ℤ → Zval
    double : ℕ → Zval
    string : Bytes → Zval
    array : Entries → Zval

  -- The entries of a PHP array, in order.
  pub data Entries : Type 0 where
    end : Entries
    entry : Key → Zval → Entries → Entries

abbrev int_eq : ℤ → ℤ → Bool
int_eq (pos a) (pos b) = a == b
int_eq (negsuc a) (negsuc b) = a == b
int_eq _ _ = false

unfoldable pub key_eq : Key → Key → Bool
unfolding bytes_eq
key_eq (index a) (index b) = int_eq a b
key_eq (name a) (name b) = bytes_eq a b
key_eq _ _ = false

-- `zend_symtable_update`: the value of a key is replaced in its place, a new key stands last.
unfoldable pub update : Key → Zval → Entries → Entries
update k v end = entry k v end
update k v (entry j w rest) =
    let below = update k v rest in if key_eq j k then entry j v rest else entry j w below

-- The index behind the greatest one, 0 for none.
unfoldable pub next_index : Entries → ℕ
next_index end = 0
next_index (entry (index (pos n)) v rest) =
    let below = next_index rest in if leb below n then n + 1 else below
next_index (entry k v rest) = next_index rest

unfoldable pub append : Key → Zval → Entries → Entries
append k v end = entry k v end
append k v (entry j w rest) = entry j w (append k v rest)

-- `add_next_index_zval`
unfoldable pub add_next_index : Zval → Entries → Entries
unfolding next_index append
add_next_index v a = append (index (pos (next_index a))) v a
