-- ===== src/Params/Binding.antt =====
-- duckdb_statement.c: what `duckdb_stmt_param_hook` binds, and under which index.
use pdo_duckdb_php.Common.{
  sym, ◌≢◌, ◌||◌, ap, ℕ, ◌+◌, ◌-◌, ◌%◌, ◌^◌, ◌≤◌, ◌<◌, true, false, ◌&&◌, [], ◌∷◌, ◌++◌, Option,
  none, some, ◌==◌, ◌≡◌, ◌⊎◌, refl, inl, inr, arith, Bytes, All, c_str, Option-cases, Bool-cases,
}
use mathlib.Core.Path.{subst}
use pdo_duckdb_php.Common.Int.{ℤ, pos, negsuc, ◌≤ℤ◌, leb_ℤ}
use pdo_duckdb_php.Api.{DuckdbState, success, error}
use pdo_duckdb_php.Types.{TypeId}
use pdo_duckdb_php.Params.{
  Text, bind_text, Bound, Binder, Parameter, BindType, BoundParam, Hooked, accepted, thrown,
  bare_name, word_of, bind_long, chosen, resolve, named_index, finish_bind, bind_value,
  duckdb_stmt_param_hook,
}

-- The integer that DuckDB gets, within the bounds of the call that hands it over.
abbrev pub IsInteger : ℤ → Bound → Type 0
IsInteger n (Bound.int32 m) = (m ≡ n) × ((negsuc (2 ^ 31 - 1) ≤ℤ m) × (m ≤ℤ pos (2 ^ 31 - 1)))
IsInteger n (Bound.uint32 m) = (pos m ≡ n) × (m ≤ 2 ^ 32 - 1)
IsInteger n (Bound.int64 m) = m ≡ n
IsInteger n _ = ⊥

-- An integer of PHP reaches DuckDB as itself, whichever type the statement asks for: no cast loses a
-- bit or the sign.
pub bind_long-IsInteger : (ty : TypeId) (n : ℤ) → IsInteger n (bind_long ty n)
unfolding bind_long
bind_long-IsInteger TypeId.integer n =
    elim (Bool-cases (leb_ℤ (negsuc (2 ^ 31 - 1)) n && leb_ℤ n (pos (2 ^ 31 - 1)))) [
      | inl e ↦ rw (e, bind_long) (ground arith, (ground arith, ground arith))
      | inr e ↦ rw (e, bind_long) refl
    ]
bind_long-IsInteger TypeId.uinteger n =
    elim (Bool-cases (leb_ℤ (pos 0) n && leb_ℤ n (pos (2 ^ 32 - 1)))) [
      | inl e ↦ rw (e, bind_long) (ground arith, omega arith)
      | inr e ↦ rw (e, bind_long) refl
    ]
bind_long-IsInteger _ n = refl

-- What is bound for a string: its bytes, as a BLOB where the type is `PDO_PARAM_LOB`, or what PHP makes
-- of it as a truth value or an integer; nothing of it where the type is `PDO_PARAM_NULL`.
abbrev pub CarriesText : BindType → Text → Bound → Type 0
CarriesText BindType.null s b = b ≡ Bound.null
CarriesText BindType.bool s b = b ≡ Bound.boolean s.is_true
CarriesText BindType.int s b = b ≡ Bound.int64 s.long
CarriesText BindType.lob s b = b ≡ Bound.blob s.bytes
CarriesText BindType.other s b = b ≡ Bound.varchar s.bytes

-- What is bound for a value: the same value, whatever the type that the caller names, or its text.
abbrev pub Carries : BindType → Parameter → Bound → Type 0
Carries t Parameter.null b = b ≡ Bound.null
Carries t (Parameter.structured json) b = (s : Bytes) × ((json ≡ some s) × (b ≡ Bound.varchar s))
Carries t (Parameter.resource none) b = b ≡ Bound.blob []
Carries t (Parameter.resource (some s)) b = b ≡ Bound.blob s
Carries t (Parameter.boolean v) b = b ≡ Bound.boolean v
Carries t (Parameter.long n) b = IsInteger n b
Carries t (Parameter.double w) b = b ≡ Bound.double w
Carries t (Parameter.text s) b = CarriesText t s b

-- What may stand in front of a name, and a name without it.
abbrev pub IsPrefix : Bytes → Type 0
IsPrefix = All (λ c. (c ≡ b':') ⊎ (c ≡ b'$'))

abbrev pub IsBare : Bytes → Type 0
IsBare [] = Unit
IsBare (c ∷ cs) = (c ≢ b':') × (c ≢ b'$')

-- A name is found with and without its prefix: any number of colons and dollars in front of a name that
-- begins with neither is taken off, and nothing else.
pub bare_name-prefix :
    (prefix name : Bytes) → IsPrefix prefix → IsBare name → bare_name (prefix ++ name) ≡ name
unfolding bare_name
bare_name-prefix [] [] h b = refl
bare_name-prefix [] (c ∷ cs) h b = ground arith
bare_name-prefix (c ∷ cs) name h b = ground (arith, bare_name-prefix cs name h.1 b)

prefix_byte : (c : ℕ) → (c == b':' || c == b'$') ≡ true → (c ≡ b':') ⊎ (c ≡ b'$')
prefix_byte c e = elim (Bool-cases (c == b':')) [
  | inl colon ↦ inl (ground arith)
  | inr other ↦ inr (ground arith)
]

bare_name_split :
    (s : Bytes)
    → (prefix : Bytes) × (s ≡ prefix ++ bare_name s) × IsPrefix prefix × IsBare (bare_name s)
unfolding bare_name
bare_name_split [] = ([], refl, tt, tt)
bare_name_split (c ∷ cs) = elim (Bool-cases (c == b':' || c == b'$')) [
  | inl e ↦
      let (prefix, split, h, b) = bare_name_split cs in
      rw (e, bare_name) (c ∷ prefix, ap (◌∷◌ c) split, (prefix_byte c e, h), b)
  | inr e ↦ rw (e, bare_name) ([], refl, tt, (ground arith, ground arith))
]

abbrev CarriesChosen : BindType → Parameter → Option Bound → Type 0
CarriesChosen t p none = Unit
CarriesChosen t p (some b) = Carries t p b

chosen-Carries : (ty : TypeId) (t : BindType) (p : Parameter) → CarriesChosen t p (chosen ty t p)
unfolding chosen bind_text
chosen-Carries ty t Parameter.null = refl
chosen-Carries ty t (Parameter.structured none) = tt
chosen-Carries ty t (Parameter.structured (some s)) = (s, (refl, refl))
chosen-Carries ty t (Parameter.resource none) = refl
chosen-Carries ty t (Parameter.resource (some s)) = refl
chosen-Carries ty t (Parameter.boolean v) = refl
chosen-Carries ty t (Parameter.long n) = bind_long-IsInteger ty n
chosen-Carries ty t (Parameter.double w) = refl
chosen-Carries ty BindType.null (Parameter.text s) = refl
chosen-Carries ty BindType.bool (Parameter.text s) = refl
chosen-Carries ty BindType.int (Parameter.text s) = refl
chosen-Carries ty BindType.lob (Parameter.text s) = refl
chosen-Carries ty BindType.other (Parameter.text s) = refl

module _ (d : Binder) (stmt : Option d.Prepared) (param : BoundParam) (w : d.World) where
  -- DuckDB gives the index for a name, less its prefix.
  pub record IsNamed (idx : ℕ) : Type 0 where
    pub name : Bytes
    pub prefix : Bytes
    pub bare : Bytes
    pub given : param.name ≡ some name
    pub split : c_str name ≡ prefix ++ bare
    pub is_prefix : IsPrefix prefix
    pub is_bare : IsBare bare
    pub index_is : d.bind_parameter_index stmt bare w ≡ (success, idx)
    pub positive : 0 < idx

  -- A position that counts from 0 becomes one that counts from 1; a name has the index of DuckDB.
  abbrev pub Positions : ℤ → ℕ → Type 0
  Positions (pos n) idx = idx ≡ n + 1
  Positions (negsuc n) idx = IsNamed idx

  -- An accepted parameter has been bound: DuckDB has taken its value under its index.
  abbrev pub BindsAccepted : d.World × Hooked → Type 0
  BindsAccepted (w', thrown message) = Unit
  BindsAccepted (w', accepted) =
      (idx : ℕ) × (b : Bound) × Positions param.paramno idx
      × Carries param.param_type param.parameter b
      × (d.bind stmt idx b w ≡ (w', success))

  abbrev PositionsResolved : Bytes ⊎ ℕ → Type 0
  PositionsResolved (inl message) = Unit
  PositionsResolved (inr idx) = Positions param.paramno idx

  finish_bind-accepted :
      (idx : ℕ) (b : Bound) (r : d.World × DuckdbState)
      → Positions param.paramno idx
      → Carries param.param_type param.parameter b
      → d.bind stmt idx b w ≡ r
      → BindsAccepted (finish_bind d param idx r)
  finish_bind-accepted idx b (w', success) p c e = (idx, b, p, c, e)
  finish_bind-accepted idx b (w', error) p c e = tt

  bind_value-accepted :
      (idx : ℕ) → Positions param.paramno idx → BindsAccepted (bind_value d stmt param idx w)
  unfolding bind_value
  bind_value-accepted idx p =
      let ty = d.param_type stmt idx w in
      elim (Option-cases (chosen ty param.param_type param.parameter)) [
        | inl e ↦ rw (e, bind_value) tt
        | inr (b, e) ↦
            rw (e, bind_value)
              (finish_bind-accepted idx b (d.bind stmt idx b w) p
                (subst (CarriesChosen param.param_type param.parameter) e
                  (chosen-Carries ty param.param_type param.parameter))
                refl)
      ]

  position_of :
      (n : ℤ)
      → leb_ℤ (pos 0) n ≡ true
      → n ≤ℤ pos (2 ^ 63 - 1)
      → Positions n ((word_of n + 1) % 2 ^ 64)
  position_of (pos n) e h = omega arith
  position_of (negsuc n) e h = absurd (ground arith)

  named_position : (n : ℤ) (idx : ℕ) → leb_ℤ (pos 0) n ≡ false → IsNamed idx → Positions n idx
  named_position (pos n) idx e h = absurd (ground arith)
  named_position (negsuc n) idx e h = h

  named_index-Positions :
      (name : Bytes) (r : DuckdbState × ℕ)
      → param.name ≡ some name
      → d.bind_parameter_index stmt (bare_name (c_str name)) w ≡ r
      → leb_ℤ (pos 0) param.paramno ≡ false
      → PositionsResolved (named_index d name r)
  unfolding named_index
  named_index-Positions name (error, idx) g a e = tt
  named_index-Positions name (success, idx) g a e = elim (Bool-cases (idx == 0)) [
    | inl z ↦ rw (z, named_index) tt
    | inr z ↦
        let (prefix, split, h, b) = bare_name_split (c_str name) in
        rw (z, named_index)
          (named_position param.paramno idx e (record {
            name = name;
            prefix = prefix;
            bare = bare_name (c_str name);
            given = g;
            split = split;
            is_prefix = h;
            is_bare = b;
            index_is = a;
            positive = ground arith;
          }))
  ]

  resolve-Positions : param.paramno ≤ℤ pos (2 ^ 63 - 1) → PositionsResolved (resolve d stmt param w)
  unfolding resolve
  resolve-Positions h = elim (Bool-cases (leb_ℤ (pos 0) param.paramno)) [
    | inl e ↦ rw (e, resolve) (position_of param.paramno e h)
    | inr e ↦ elim (Option-cases param.name) [
      | inl none_given ↦ rw (e, none_given, resolve) tt
      | inr (name, given) ↦
          let answer = d.bind_parameter_index stmt (bare_name (c_str name)) w in
          let by_name : resolve d stmt param w ≡ named_index d name answer =
            rw (e, given, resolve) in
          subst PositionsResolved (sym by_name) (named_index-Positions name answer given refl e)
    ]
  ]

  hook_resolved :
      (r : Bytes ⊎ ℕ)
      → resolve d stmt param w ≡ r
      → PositionsResolved r
      → BindsAccepted (duckdb_stmt_param_hook d true stmt param w)
  unfolding duckdb_stmt_param_hook
  hook_resolved (inl message) e p = rw (e, duckdb_stmt_param_hook) tt
  hook_resolved (inr idx) e p = rw (e, duckdb_stmt_param_hook) (bind_value-accepted idx p)

  -- Where the hook accepts a parameter before an execution, DuckDB has taken its value, or the JSON
  -- text of an array or object, under the position counted from 1, or under the index, above 0, that it
  -- gives for the name without the colons and dollars in front. The position is a `zend_long`. Only of a string the type that the caller names
  -- decides how it is bound: as text, as a BLOB, or as what PHP makes of it.
  pub duckdb_stmt_param_hook-accepted :
      (w' : d.World)
      → param.paramno ≤ℤ pos (2 ^ 63 - 1)
      → duckdb_stmt_param_hook d true stmt param w ≡ (w', accepted)
      → BindsAccepted (w', accepted)
  duckdb_stmt_param_hook-accepted w' h e =
      subst BindsAccepted e (hook_resolved (resolve d stmt param w) refl (resolve-Positions h))
