-- ===== src/Sql.antt =====
-- duckdb_driver.c, the functions that make text for DuckDB: `zstr_prepare` (the SQL of a prepared
-- statement), `zstr_strip_zerobytes` (the SQL of `exec` and of the init command) and
-- `duckdb_handle_quoter` (`PDO::quote`). A `zend_string` is the list of its bytes; a C buffer is the
-- list of the bytes written to it, the terminator included.
pub mod Buffers
pub mod Outside
pub mod Placeholders
pub mod Literals
mod Tests
use pdo_duckdb_php.Common.{
  ℕ, Bool, true, false, not, ◌&&◌, ◌||◌, List, [], ◌∷◌, ◌++◌, Option, none, some, leb, ◌==◌, ◌+◌,
  ◌*◌, if◌then◌else◌, Bytes,
}

-- The two flags of the scan: inside '...' and inside "...".
pub record Quotes : Type 0 where
  pub in_sq : Bool
  pub in_dq : Bool

-- The flags before the loop.
abbrev pub outside : Quotes
outside = record { in_sq = false; in_dq = false }

unfoldable pub toggle : ℕ → Quotes → Quotes
toggle c q =
    if c == b'\'' && not q.in_dq
    then record q { in_sq = not q.in_sq }
    else if c == b'"' && not q.in_sq
    then record q { in_dq = not q.in_dq }
    else q

pub is_name_start : ℕ → Bool
is_name_start c = (leb b'a' c && leb c b'z') || (leb b'A' c && leb c b'Z') || c == b'_'

-- `i + 1 < len`, and the byte at `i + 1` may start a name.
pub name_follows : Bytes → Bool
unfolding is_name_start
name_follows [] = false
name_follows (c ∷ cs) = is_name_start c

-- `i == 0 || src[i - 1] != ':'`
pub not_after_colon : Option ℕ → Bool
not_after_colon none = true
not_after_colon (some c) = not (c == b':')

-- The byte that is written for `c`, under the flags after `c`.
pub prepared_byte : Quotes → Option ℕ → ℕ → Bytes → ℕ
unfolding name_follows not_after_colon
prepared_byte q prev c rest =
    if not q.in_sq && not q.in_dq && c == b':' && name_follows rest && not_after_colon prev
    then b'$'
    else c

-- The loop of `zstr_prepare`: `prev` is the source byte before, a NUL included.
unfoldable pub prepare_loop : Quotes → Option ℕ → Bytes → Bytes
unfolding toggle prepared_byte
prepare_loop q prev [] = 0 ∷ []
prepare_loop q prev (c ∷ cs) = elim (c == 0) [
  | true ↦ prepare_loop q (some c) cs
  | false ↦ prepared_byte (toggle c q) prev c cs ∷ prepare_loop (toggle c q) (some c) cs
]

unfoldable pub zstr_prepare : Bytes → Bytes
unfolding prepare_loop
zstr_prepare str = prepare_loop outside none str

-- `memchr(src, '\0', len) != NULL`
pub has_nul : Bytes → Bool
has_nul [] = false
has_nul (c ∷ cs) = c == 0 || has_nul cs

pub strip_loop : Bytes → Bytes
strip_loop [] = 0 ∷ []
strip_loop (c ∷ cs) = elim (c == 0) [ true ↦ strip_loop cs | false ↦ c ∷ strip_loop cs ]

-- Without a NUL the buffer is copied whole, with the terminator of the `zend_string`.
unfoldable pub zstr_strip_zerobytes : Bytes → Bytes
unfolding has_nul strip_loop
zstr_strip_zerobytes str = if not (has_nul str) then str ++ (0 ∷ []) else strip_loop str

-- The rest of the literal, from the loop to the closing quote.
pub quote_loop : Bytes → Bytes
quote_loop [] = b'\'' ∷ []
quote_loop (c ∷ cs) = let rest = quote_loop cs in if c == b'\'' then b'\'' ∷ c ∷ rest else c ∷ rest

-- The bytes of the returned `zend_string`; a terminator stands behind them in its buffer.
unfoldable pub duckdb_handle_quoter : Bytes → Bytes
unfolding quote_loop
duckdb_handle_quoter unquoted = b'\'' ∷ quote_loop unquoted

-- The size that `duckdb_handle_quoter` asks for: `len * 2 + 3`.
abbrev pub quoter_capacity : ℕ → ℕ
quoter_capacity len = len * 2 + 3
