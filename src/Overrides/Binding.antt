-- ===== src/Overrides/Binding.antt =====
-- pdo_duckdb.c: what a call of `bindParam` on a statement of this driver does.
use pdo_duckdb_php.Common.{
  ℕ, ◌≡◌, refl, ap, true, false, List, [], ◌∷◌, Option, none, some, Bytes, if◌then◌else◌, ◌==◌,
  arith,
}
use pdo_duckdb_php.Common.Int.{pos}
use pdo_duckdb_php.Types.{TypeId}
use pdo_duckdb_php.Params.{Bound, Parameter, BindType, bind_text, chosen}
use pdo_duckdb_php.Overrides.{
  Argument, value, variable, Php, Outcome, returned, thrown, not_parsed, State, Original,
  is_foreign, bind_failed, bind_encoded, bind_variable, bind_param_own, stmt_bind_param_override,
  as_string_type,
}

eq_self : (x : ℕ) → (x == x) ≡ true
eq_self x = ground arith

module _ (k : Php) where
  -- The value that a call binds, behind a reference too, where the call has one.
  abbrev pub bound_value : List Argument → State k → Option Parameter
  bound_value (which ∷ value v ∷ rest) s = some v
  bound_value (which ∷ variable x ∷ rest) s = some (s.variables x)
  bound_value args s = none

  abbrev pub IsNoArray : Option Parameter → Type 0
  IsNoArray (some (Parameter.structured json)) = ⊥
  IsNoArray o = Unit

  abbrev pub chosen_string : TypeId → Option Parameter → Option Bound
  chosen_string ty none = none
  chosen_string ty (some v) = chosen ty BindType.other v

  -- The variable that a call binds.
  abbrev pub BindsVariable : List Argument → ℕ → Type 0
  BindsVariable (which ∷ variable x ∷ rest) y = x ≡ y
  BindsVariable args y = ⊥

-- The arguments behind the value: the type, where one is given, has become `PDO_PARAM_STR`, which is 2.
abbrev pub TypedAsString : List Argument → List Argument → Type 0
TypedAsString [] rest' = rest' ≡ []
TypedAsString (t ∷ rest) rest' = rest' ≡ value (Parameter.long (pos 2)) ∷ rest

as_string_type-TypedAsString : (rest : List Argument) → TypedAsString rest (as_string_type rest)
as_string_type-TypedAsString [] = refl
as_string_type-TypedAsString (t ∷ rest) = refl

module _ (k : Php) where
  -- The arguments that PDO's handler gets for an array with this JSON: its text in place of the array,
  -- where that is given as a value, and the variable itself, where it is given as one.
  abbrev pub Replaced : Bytes → List Argument → List Argument → Type 0
  Replaced json (which ∷ value v ∷ rest) args' =
      (rest' : List Argument) × (args' ≡ which ∷ value (Parameter.text (k.text_of json)) ∷ rest')
      × TypedAsString rest rest'
  Replaced json (which ∷ variable x ∷ rest) args' =
      (rest' : List Argument) × (args' ≡ which ∷ variable x ∷ rest') × TypedAsString rest rest'
  Replaced json args args' = ⊥

  -- The arguments and the state that PDO's handler gets: those of the call, if it binds no array; else
  -- arguments in which the array is replaced.
  abbrev pub Prepared :
      Option Parameter → List Argument → State k → List Argument → State k → Type 0
  Prepared (some (Parameter.structured none)) args s args' s' = ⊥
  Prepared (some (Parameter.structured (some json))) args s args' s' =
      Replaced json args args'
      × (bound_value k args' s' ≡ some (Parameter.text (k.text_of json)))
      × (s'.stmt ≡ s.stmt)
      × (s'.world ≡ s.world)
  Prepared v args s args' s' = (args' ≡ args) × (s' ≡ s)

module _ (k : Php) (keeps : (s : Bytes) → (k.text_of s).bytes ≡ s)
    (original : Original k Argument) where
  -- PDO's handler has run, on arguments with no array to bind; the hook binds for them, as a string, what
  -- it would have bound. Only the variable that is bound may have changed.
  pub record Handed (args : List Argument) (s t : State k) : Type 0 where
    pub args' : List Argument
    pub s' : State k
    pub ran : t ≡ original args' s'
    pub prepared : Prepared k (bound_value k args s) args s args' s'
    pub no_array : IsNoArray k (bound_value k args' s')
    pub same :
        (ty : TypeId)
        → chosen_string k ty (bound_value k args' s') ≡ chosen_string k ty (bound_value k args s)
    pub others : (y : ℕ) → ¬ BindsVariable k args y → s'.variables y ≡ s.variables y

  abbrev pub Binds : List Argument → State k → State k × Outcome → Type 0
  Binds args s (t, returned) = Handed args s t
  Binds args s (t, thrown message) =
      (t ≡ s) × (message ≡ bind_failed) × (bound_value k args s ≡ some (Parameter.structured none))
  Binds args s (t, not_parsed) = ⊥

  as_is :
      (args : List Argument) (s : State k) (v : Option Parameter)
      → IsNoArray k v
      → Prepared k v args s args s
  as_is args s none free = (refl, refl)
  as_is args s (some (Parameter.structured json)) free = absurd free
  as_is args s (some Parameter.null) free = (refl, refl)
  as_is args s (some (Parameter.resource o)) free = (refl, refl)
  as_is args s (some (Parameter.boolean b)) free = (refl, refl)
  as_is args s (some (Parameter.long n)) free = (refl, refl)
  as_is args s (some (Parameter.double w)) free = (refl, refl)
  as_is args s (some (Parameter.text t)) free = (refl, refl)

  handed_as_is :
      (args : List Argument) (s : State k)
      → IsNoArray k (bound_value k args s)
      → Binds args s (original args s, returned)
  handed_as_is args s free = record {
    args' = args;
    s' = s;
    ran = refl;
    prepared = as_is args s (bound_value k args s) free;
    no_array = free;
    same = λ ty. refl;
    others = λ y n. refl;
  }

  bind_encoded-Binds :
      (which : Argument) (v : Parameter) (rest : List Argument) (s : State k)
      → Binds (which ∷ value v ∷ rest) s (bind_encoded k original which v rest s)
  unfolding bind_encoded chosen bind_text
  bind_encoded-Binds which (Parameter.structured none) rest s = (refl, refl, refl)
  bind_encoded-Binds which (Parameter.structured (some json)) rest s = record {
    args' = which ∷ value (Parameter.text (k.text_of json)) ∷ as_string_type rest;
    s' = s;
    ran = refl;
    prepared = ((_, refl, as_string_type-TypedAsString rest), refl, refl, refl);
    no_array = tt;
    same = λ ty. ap (λ s. some (Bound.varchar s)) (keeps json);
    others = λ y n. refl;
  }
  bind_encoded-Binds which Parameter.null rest s = handed_as_is (which ∷ value _ ∷ rest) s tt
  bind_encoded-Binds which v rest s = handed_as_is (which ∷ value v ∷ rest) s tt

  bind_variable-Binds :
      (which : Argument) (x : ℕ) (v : Parameter) (rest : List Argument) (s : State k)
      → s.variables x ≡ v
      → Binds (which ∷ variable x ∷ rest) s (bind_variable k original which x v rest s)
  unfolding bind_variable chosen bind_text
  bind_variable-Binds which x (Parameter.structured none) rest s e = (refl, refl, ap some e)
  bind_variable-Binds which x (Parameter.structured (some json)) rest s e = record {
    args' = which ∷ variable x ∷ as_string_type rest;
    s' = record s {
      variables = λ y. if x == y then Parameter.text (k.text_of json) else s.variables y;
    };
    ran = refl;
    prepared = rw (e, eq_self x) ((_, refl, as_string_type-TypedAsString rest), refl, refl, refl);
    no_array = rw (eq_self x) tt;
    same = λ ty. rw (eq_self x, e) (ap (λ s. some (Bound.varchar s)) (keeps json));
    others = λ y n. ground arith;
  }
  bind_variable-Binds which x Parameter.null rest s e =
      handed_as_is (which ∷ variable x ∷ rest) s (rw e tt)
  bind_variable-Binds which x v rest s e = handed_as_is (which ∷ variable x ∷ rest) s (rw e tt)

  bind_param_own-Binds :
      (args : List Argument) (s : State k) → Binds args s (bind_param_own k original args s)
  unfolding bind_param_own
  bind_param_own-Binds (which ∷ value v ∷ rest) s = bind_encoded-Binds which v rest s
  bind_param_own-Binds (which ∷ variable x ∷ rest) s =
      bind_variable-Binds which x (s.variables x) rest s refl
  bind_param_own-Binds (which ∷ []) s = handed_as_is (which ∷ []) s tt
  bind_param_own-Binds [] s = handed_as_is [] s tt

  -- A call of `bindParam` on a statement of this driver either runs PDO's handler once, or throws and
  -- changes nothing, because the value has no JSON. PDO's handler gets the arguments and the state of the
  -- call, if that binds no array or object; else the same parameter, with the JSON text in place of the
  -- array or in the variable that is bound, the type, where one is given, as a string, and the arguments
  -- behind it unchanged. The hook binds as a string what it would bind for the value given, and no
  -- variable changes but the one that is bound.
  pub stmt_bind_param_override-Binds :
      (args : List Argument) (s : State k)
      → is_foreign k s ≡ false
      → Binds args s (stmt_bind_param_override k original args s)
  unfolding stmt_bind_param_override
  stmt_bind_param_override-Binds args s own =
      rw (own, stmt_bind_param_override) (bind_param_own-Binds args s)
