-- ===== src/Overrides/Execute.antt =====
-- pdo_duckdb.c: what a call of `execute` on a statement of this driver does.
use pdo_duckdb_php.Common.{ℕ, ◌≡◌, true, List, ◌∷◌, Option, none, some, Bytes}
use pdo_duckdb_php.Overrides.{
  Params, entries, Php, Outcome, returned, thrown, not_parsed, State, Original, cleaned,
  encode_failed,
}
use pdo_duckdb_php.Overrides.Encoding.{BindSame, FailsAt}

-- The arguments that PDO gets: those of the call, with an array for which the hook binds the same.
abbrev pub SameArguments : List Params → List Params → Type 0
SameArguments (entries es ∷ rest) (entries es' ∷ rest') = BindSame es es' × (rest' ≡ rest)
SameArguments args args' = args' ≡ args

-- The arguments name an array whose first entry without JSON stands at the position.
abbrev pub FailsIn : List Params → ℕ → Type 0
FailsIn (entries es ∷ rest) position = FailsAt es position
FailsIn args position = ⊥

module _ (k : Php) (keeps : (s : Bytes) → (k.text_of s).bytes ≡ s)
    (original : Original k Params) where
  -- PDO's handler has run on such arguments, and no binding is left, neither in PDO nor in DuckDB.
  pub record Ran (args : List Params) (s t : State k) : Type 0 where
    pub args' : List Params
    pub same : SameArguments args args'
    pub prepared : Option k.Prepared
    pub attached : (original args' s).driver_data ≡ some prepared
    pub unbound : t.bound_params ≡ cleaned (original args' s).bound_params
    pub cleared : t.world ≡ k.clear_bindings prepared (original args' s).world
    pub same_data : t.driver_data ≡ (original args' s).driver_data
    pub same_methods : t.is_duckdb ≡ (original args' s).is_duckdb
    pub same_variables : t.variables ≡ (original args' s).variables

  abbrev pub Executes : List Params → State k → Option (State k × Outcome) → Type 0
  Executes args s none = ⊥
  Executes args s (some (t, returned)) = Ran args s t
  Executes args s (some (t, thrown message)) =
      (t ≡ s) × ((position : ℕ) × (message ≡ encode_failed position) × FailsIn args position)
  Executes args s (some (t, not_parsed)) = (t ≡ s) × (k.parse_fails args ≡ true)
