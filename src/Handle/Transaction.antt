-- ===== src/Handle/Transaction.antt =====
-- duckdb_driver.c: transaction statements, and the error that PDO's `errorInfo` shows after one.
use pdo_duckdb_php.Common.{
  Bool, true, false, Option, none, some, [], ◌∷◌, ◌≡◌, refl, Bytes, codes, take,
}
use pdo_duckdb_php.Common.Int.{pos}
use pdo_duckdb_php.Api.{Duckdb, DuckdbState, success, error}
use pdo_duckdb_php.Trace.{messages}
use pdo_duckdb_php.Handle.{Link, error_buffer, duckdb_fetch_error}

-- What is shown of an error: as many of its bytes as the buffer of 256 holds beside the terminator.
abbrev pub shown : Option Bytes → Bytes
shown none = codes "unknown error"
shown (some []) = codes "unknown error"
shown (some (c ∷ cs)) = c ∷ take 254 cs

error_buffer-shown : (o : Option Bytes) → error_buffer o ≡ shown o
unfolding error_buffer
error_buffer-shown none = refl
error_buffer-shown (some []) = refl
error_buffer-shown (some (c ∷ cs)) = refl

module _ {d : Duckdb} where
  -- What a transaction statement makes of DuckDB's answer `r`, got in the world of `q`.
  abbrev pub Answered : Link d → Link d → DuckdbState → d.Result → Link d × Bool → Type 0
  Answered l q success r (n, done) =
      (done ≡ true)
      × (n.H ≡ l.H)
      × (n.error_code ≡ l.error_code)
      × (messages n.trace ≡ messages l.trace)
  Answered l q error r (n, done) =
      (done ≡ false)
      × (n.error_code ≡ codes "HY000")
      × (duckdb_fetch_error n ≡ (pos 0, shown (d.result_error r q.world)))
      × (messages n.trace ≡ messages l.trace)
