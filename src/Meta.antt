-- ===== src/Meta.antt =====
-- duckdb_statement.c: `duckdb_stmt_describe_col` and `duckdb_stmt_get_col_meta`. What the code asks DuckDB
-- about a column is a value of `ColumnType`; the array of flags that PHP gets is always empty.
use pdo_duckdb_php.Common.{
  [], ◌∷◌, Bool, false, not, ◌||◌, Option, none, some, if◌then◌else◌, Bytes, codes, c_str, bytes_eq,
}
use pdo_duckdb_php.Common.Int.{ℤ, pos, leb_ℤ, ltb_ℤ}
use pdo_duckdb_php.Types.{TypeId}

-- `enum pdo_param_type`, as far as the driver names it.
pub data ParamType : Type 0 where
  null int str lob bool : ParamType

-- The type id of a column, its alias and its declaration, where DuckDB gives them.
pub record ColumnType : Type 0 where
  pub type_id : TypeId
  pub alias : Option Bytes
  pub declaration : Option Bytes

-- The array that PHP gets: `native_type`, `pdo_type` and `duckdb:decl_type`.
pub record Meta : Type 0 where
  pub native_type : Bytes
  pub pdo_type : ParamType
  pub decl_type : Bytes

-- What `describe_col` writes about a column: its name; the length and the precision are 0.
unfoldable pub duckdb_stmt_describe_col : Bytes → Bytes
duckdb_stmt_describe_col name = c_str name

-- An alias makes the column JSON, which is reported as a VARIANT, or text.
unfoldable pub meta_type : Option Bytes → TypeId → TypeId
meta_type none ty = ty
meta_type (some []) ty = ty
meta_type (some (c ∷ cs)) ty =
    if bytes_eq (c ∷ cs) (codes "JSON") then TypeId.variant else TypeId.varchar

abbrev pub is_type : Option Bytes → Bool
is_type none = false
is_type (some s) = bytes_eq s (codes "TYPE")

-- The switch: the name of the type, and the kind that PDO knows.
unfoldable pub native_type : Option Bytes → TypeId → Bytes × ParamType
native_type decl TypeId.invalid =
    (if is_type decl then codes "type" else codes "unknown", ParamType.str)
native_type decl TypeId.boolean = (codes "boolean", ParamType.bool)
native_type decl TypeId.tinyint = (codes "tinyint", ParamType.int)
native_type decl TypeId.smallint = (codes "smallint", ParamType.int)
native_type decl TypeId.integer = (codes "integer", ParamType.int)
native_type decl TypeId.bigint = (codes "bigint", ParamType.int)
native_type decl TypeId.utinyint = (codes "utinyint", ParamType.int)
native_type decl TypeId.usmallint = (codes "usmallint", ParamType.int)
native_type decl TypeId.uinteger = (codes "uinteger", ParamType.int)
native_type decl TypeId.ubigint = (codes "ubigint", ParamType.int)
native_type decl TypeId.hugeint = (codes "hugeint", ParamType.str)
native_type decl TypeId.uhugeint = (codes "uhugeint", ParamType.str)
native_type decl TypeId.float = (codes "float", ParamType.str)
native_type decl TypeId.double = (codes "double", ParamType.str)
native_type decl TypeId.decimal = (codes "decimal", ParamType.str)
native_type decl TypeId.blob = (codes "blob", ParamType.lob)
native_type decl TypeId.date = (codes "date", ParamType.str)
native_type decl TypeId.time = (codes "time", ParamType.str)
native_type decl TypeId.time_tz = (codes "timetz", ParamType.str)
native_type decl TypeId.time_ns = (codes "time_ns", ParamType.str)
native_type decl TypeId.timestamp = (codes "timestamp", ParamType.str)
native_type decl TypeId.timestamp_s = (codes "timestamp_s", ParamType.str)
native_type decl TypeId.timestamp_ms = (codes "timestamp_ms", ParamType.str)
native_type decl TypeId.timestamp_ns = (codes "timestamp_ns", ParamType.str)
native_type decl TypeId.timestamp_tz = (codes "timestamptz", ParamType.str)
native_type decl TypeId.timestamp_tz_ns = (codes "timestamptz_ns", ParamType.str)
native_type decl TypeId.list = (codes "list", ParamType.lob)
native_type decl TypeId.struct = (codes "struct", ParamType.lob)
native_type decl TypeId.map = (codes "map", ParamType.lob)
native_type decl TypeId.enum = (codes "enum", ParamType.str)
native_type decl TypeId.union = (codes "union", ParamType.lob)
native_type decl TypeId.uuid = (codes "uuid", ParamType.str)
native_type decl TypeId.interval = (codes "interval", ParamType.str)
native_type decl TypeId.variant = (codes "json", ParamType.lob)
native_type decl TypeId.bit = (codes "bit", ParamType.str)
native_type decl TypeId.geometry = (codes "geometry", ParamType.str)
native_type decl TypeId.bignum = (codes "bignum", ParamType.str)
native_type decl TypeId.sqlnull = (codes "null", ParamType.null)
native_type decl TypeId.varchar = (codes "varchar", ParamType.str)
native_type decl _ = (codes "unknown", ParamType.str)

abbrev pub text_of : Option Bytes → Bytes → Bytes
text_of none default = default
text_of (some s) default = s

-- `duckdb_stmt_get_col_meta`; `none` is FAILURE.
unfoldable pub duckdb_stmt_get_col_meta : Bool → ℤ → (ℤ → ColumnType) → ℤ → Option Meta
duckdb_stmt_get_col_meta result_set column_count columns colno =
    let c = columns colno in
    let (type_str, pdo_type) = native_type c.declaration (meta_type c.alias c.type_id) in
    if not result_set
    then none
    else if ltb_ℤ colno (pos 0) || leb_ℤ column_count colno
    then none
    else some (record {
      native_type = type_str;
      pdo_type = pdo_type;
      decl_type = text_of c.declaration type_str;
    })
