-- ===== src/Handle/Attributes.antt =====
-- duckdb_driver.c: `duckdb_set_attribute` and `duckdb_get_attribute`.
use pdo_duckdb_php.Common.{
  Bool, true, false, not, Option, none, some, ◌≡◌, refl, arith, if◌then◌else◌, Bytes,
}
use pdo_duckdb_php.Common.Int.{ℤ, pos, is_zero}
use pdo_duckdb_php.Api.{Duckdb}
use pdo_duckdb_php.Swoole.{dispatch}
use pdo_duckdb_php.Handle.{DbHandle}
use pdo_duckdb_php.Statement.{run_prepared}

-- The attributes of PDO that the driver knows, and all others.
pub data Attribute : Type 0 where
  client_version server_version autocommit unbuffered other : Attribute

-- A value, by what PHP's `zval_get_long` and `zend_is_true` make of it.
pub record AttributeValue : Type 0 where
  pub as_long : ℤ
  pub is_true : Bool

pub data Answer : Type 0 where
  string : Bytes → Answer
  long : ℤ → Answer
  bool : Bool → Answer

abbrev pub flag : Bool → ℤ
flag true = pos 1
flag false = pos 0

dispatch_if :
    (d : Duckdb) {A : Type 0} (l : Option d.Lock) (b : Bool) (f g : d.World → d.World × A)
    (w : d.World)
    → (if b then dispatch d l f w else dispatch d l g w) ≡ dispatch d l (if b then f else g) w
dispatch_if d l true f g w = refl
dispatch_if d l false f g w = refl

module _ {d : Duckdb} where
  -- `duckdb_set_attribute`
  unfoldable pub duckdb_set_attribute : DbHandle d → Attribute → AttributeValue → DbHandle d × Bool
  duckdb_set_attribute H autocommit val =
      (record H { auto_commit = not (is_zero val.as_long) }, true)
  duckdb_set_attribute H unbuffered val = (record H { unbuffered = val.is_true }, true)
  duckdb_set_attribute H _ val = (H, false)

  -- `duckdb_get_attribute`; `none` for an attribute that the driver does not know.
  unfoldable pub duckdb_get_attribute : DbHandle d → Attribute → Option Answer
  duckdb_get_attribute H client_version = some (string d.library_version)
  duckdb_get_attribute H server_version = some (string d.library_version)
  duckdb_get_attribute H autocommit = some (long (flag H.auto_commit))
  duckdb_get_attribute H unbuffered = some (bool H.unbuffered)
  duckdb_get_attribute H other = none

  -- What an attribute reads after `a` has been set to `v`.
  abbrev after_set : DbHandle d → Attribute → AttributeValue → Attribute → Option Answer
  after_set H autocommit v autocommit = some (long (flag (not (is_zero v.as_long))))
  after_set H unbuffered v unbuffered = some (bool v.is_true)
  after_set H a v b = duckdb_get_attribute H b

  -- An attribute that was set reads the value it was set to, as a flag; every other one reads as before,
  -- and setting an unknown or a read-only one changes nothing.
  pub get_attribute-set_attribute :
      (H : DbHandle d) (a b : Attribute) (v : AttributeValue)
      → duckdb_get_attribute (duckdb_set_attribute H a v).0 b ≡ after_set H a v b
  unfolding duckdb_set_attribute duckdb_get_attribute
  get_attribute-set_attribute H autocommit b v = ground arith
  get_attribute-set_attribute H unbuffered b v = ground arith
  get_attribute-set_attribute H _ b v = ground arith

  -- Once `UNBUFFERED` has been set, statements are executed streaming, exactly if the value is true.
  pub run_prepared-set_unbuffered :
      (H : DbHandle d) (v : AttributeValue) (p : Option d.Prepared) (w : d.World)
      → run_prepared (duckdb_set_attribute H unbuffered v).0 p w
        ≡ dispatch d H.thread_lock
            (if v.is_true then d.execute_prepared_streaming p else d.execute_prepared p)
            w
  unfolding duckdb_set_attribute run_prepared
  run_prepared-set_unbuffered H v p w = dispatch_if d H.thread_lock v.is_true _ _ w
