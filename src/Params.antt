-- ===== src/Params.antt =====
-- duckdb_statement.c: `duckdb_stmt_param_hook`, which binds a parameter before an execution. PHP's
-- values enter as what the source asks of them. `Binder` is what the hook calls of DuckDB.
pub mod Binding
mod Tests
use pdo_duckdb_php.Common.{
  ℕ, ◌+◌, ◌-◌, ◌%◌, ◌^◌, Bool, true, false, ◌&&◌, ◌||◌, List, [], ◌∷◌, ◌++◌, Option, none, some,
  ◌==◌, ◌⊎◌, inl, inr, if◌then◌else◌, Bytes, codes, c_str,
}
use pdo_duckdb_php.Common.Int.{ℤ, pos, negsuc, leb_ℤ, ltb_ℤ, signed32}
use pdo_duckdb_php.Api.{DuckdbState, success, error}
use pdo_duckdb_php.Handle.{hy000}
use pdo_duckdb_php.Types.{TypeId}
use pdo_duckdb_php.Value.Convert.{print_u64}

-- What is handed to DuckDB: one constructor for each `duckdb_bind_…`. A float is its bit pattern.
pub data Bound : Type 0 where
  null : Bound
  varchar blob : Bytes → Bound
  boolean : Bool → Bound
  int32 int64 : ℤ → Bound
  uint32 : ℕ → Bound
  double : ℕ → Bound

pub record Binder : Type 1 where
  pub World : Type 0
  pub Prepared : Type 0
  pub bind : Option Prepared → ℕ → Bound → World → World × DuckdbState
  pub param_type : Option Prepared → ℕ → World → TypeId
  pub bind_parameter_index : Option Prepared → Bytes → World → DuckdbState × ℕ

-- A value of another kind, which is a string: its bytes, and what PHP makes of it as a truth value and
-- as an integer.
pub record Text : Type 0 where
  pub bytes : Bytes
  pub is_true : Bool
  pub long : ℤ

-- The value behind a reference: an array or object has the text of `php_json_encode`, if it can be
-- encoded, and a resource the content of its stream, if there is one.
pub data Parameter : Type 0 where
  null : Parameter
  structured : Option Bytes → Parameter
  resource : Option Bytes → Parameter
  boolean : Bool → Parameter
  long : ℤ → Parameter
  double : ℕ → Parameter
  text : Text → Parameter

-- `PDO_PARAM_TYPE(param->param_type)`
pub data BindType : Type 0 where
  null bool int lob other : BindType

pub record BoundParam : Type 0 where
  pub paramno : ℤ
  pub name : Option Bytes
  pub parameter : Parameter
  pub param_type : BindType

-- The hook returns 1, or throws and returns 0.
pub data Hooked : Type 0 where
  accepted : Hooked
  thrown : Bytes → Hooked

-- `while (*bare == ':' || *bare == '$') bare++`
unfoldable pub bare_name : Bytes → Bytes
bare_name [] = []
bare_name (c ∷ cs) = let rest = bare_name cs in if c == b':' || c == b'$' then rest else c ∷ cs

-- `%lld`
abbrev pub print_long : ℤ → Bytes
print_long (pos n) = print_u64 n
print_long (negsuc n) = b'-' ∷ print_u64 (n + 1)

-- The cast of an `int64_t` to `int32_t`, and to `uint32_t`.
abbrev pub word_of : ℤ → ℕ
word_of (pos n) = n % 2 ^ 64
word_of (negsuc n) = 2 ^ 64 - 1 - n % 2 ^ 64

abbrev pub to_int32 : ℤ → ℤ
to_int32 n = signed32 (word_of n)

abbrev pub to_uint32 : ℤ → ℕ
to_uint32 n = word_of n % 2 ^ 32

-- An integer is bound in 32 bits where the statement's type asks for it and the value fits.
unfoldable pub bind_long : TypeId → ℤ → Bound
bind_long TypeId.integer n =
    if leb_ℤ (negsuc (2 ^ 31 - 1)) n && leb_ℤ n (pos (2 ^ 31 - 1))
    then Bound.int32 (to_int32 n)
    else Bound.int64 n
bind_long TypeId.uinteger n =
    if leb_ℤ (pos 0) n && leb_ℤ n (pos (2 ^ 32 - 1))
    then Bound.uint32 (to_uint32 n)
    else Bound.int64 n
bind_long _ n = Bound.int64 n

unfoldable pub bind_text : BindType → Text → Bound
bind_text BindType.null s = Bound.null
bind_text BindType.bool s = Bound.boolean s.is_true
bind_text BindType.int s = Bound.int64 s.long
bind_text BindType.lob s = Bound.blob s.bytes
bind_text BindType.other s = Bound.varchar s.bytes

-- A stream that is not there is an empty BLOB.
abbrev pub content : Option Bytes → Bytes
content none = []
content (some s) = s

-- What is bound for a value, with the type that the statement asks for; `none` where JSON failed.
unfoldable pub chosen : TypeId → BindType → Parameter → Option Bound
chosen ty p Parameter.null = some Bound.null
chosen ty p (Parameter.structured none) = none
chosen ty p (Parameter.structured (some json)) = some (Bound.varchar json)
chosen ty p (Parameter.resource o) = some (Bound.blob (content o))
chosen ty p (Parameter.boolean b) = some (Bound.boolean b)
chosen ty p (Parameter.long n) = some (bind_long ty n)
chosen ty p (Parameter.double w) = some (Bound.double w)
chosen ty p (Parameter.text s) = some (bind_text p s)

-- The message of a failed binding, by the name where there is one.
abbrev pub binding_failed : Option Bytes → ℕ → Bytes
binding_failed none idx = hy000 (codes "parameter binding failed for parameter " ++ print_u64 idx)
binding_failed (some name) idx =
    hy000 (codes "parameter binding failed for parameter " ++ c_str name)

module _ (d : Binder) where
  open d use {World, Prepared}

  -- What `duckdb_bind_parameter_index` answers about a name.
  unfoldable pub named_index : Bytes → DuckdbState × ℕ → Bytes ⊎ ℕ
  named_index name (error, idx) =
      inl (hy000 (codes "could not resolve named parameter '" ++ (c_str name ++ codes "'")))
  named_index name (success, idx) =
      if idx == 0
      then inl (hy000 (codes "could not resolve named parameter '" ++ (c_str name ++ codes "'")))
      else inr idx

  -- The index of DuckDB, which counts from 1, or the message that is thrown.
  unfoldable pub resolve : Option Prepared → BoundParam → World → Bytes ⊎ ℕ
  resolve stmt param w =
      let by_name : Bytes ⊎ ℕ = elim param.name [
        | none ↦ inl (hy000 (codes "invalid parameter index " ++ print_long param.paramno))
        | some name ↦ named_index name (d.bind_parameter_index stmt (bare_name (c_str name)) w)
      ] in
      if leb_ℤ (pos 0) param.paramno then inr ((word_of param.paramno + 1) % 2 ^ 64) else by_name

  abbrev pub finish_bind : BoundParam → ℕ → World × DuckdbState → World × Hooked
  finish_bind param idx (w, success) = (w, accepted)
  finish_bind param idx (w, error) = (w, thrown (binding_failed param.name idx))

  -- The value is bound, and a failure thrown.
  unfoldable pub bind_value : Option Prepared → BoundParam → ℕ → World → World × Hooked
  bind_value stmt param idx w =
      elim (chosen (d.param_type stmt idx w) param.param_type param.parameter) [
        | none ↦ (w, thrown (binding_failed param.name idx))
        | some b ↦ finish_bind param idx (d.bind stmt idx b w)
      ]

  -- `duckdb_stmt_param_hook`; the event is `PDO_PARAM_EVT_EXEC_PRE` or another.
  unfoldable pub duckdb_stmt_param_hook :
      Bool → Option Prepared → BoundParam → World → World × Hooked
  duckdb_stmt_param_hook false stmt param w = (w, accepted)
  duckdb_stmt_param_hook true stmt param w = elim (resolve stmt param w) [
    | inl message ↦ (w, thrown message)
    | inr idx ↦ bind_value stmt param idx w
  ]
