-- ===== src/Stubs/Text.antt =====
-- duckdb_stubs.cpp: what callers read from the buffers.
use pdo_duckdb_php.Common.{
  ◌++◌, ℕ, ◌+◌, ◌≡◌, ◌↔◌, ◌∙◌, refl, sym, false, [], ◌∷◌, Option, none, some, Bytes, NulFree, c_str,
  length, c_str_terminated, c_str-NulFree, Bool-cases, Option-cases, inl, inr, arith,
}
use mathlib.Core.Path.{subst}
use pdo_duckdb_php.Stubs.{Classes, terminated, copied, value_string, duckdb_get_string}

c_str-terminated : (str : Bytes) → c_str (terminated str) ≡ c_str str
unfolding c_str
c_str-terminated [] = refl
c_str-terminated (c ∷ str) = ground (arith, c_str-terminated str)

terminated-nul : (str : Bytes) → terminated str ≡ str ++ 0 ∷ []
terminated-nul str = refl

c_str_whole_iff : (str : Bytes) → (c_str (terminated str) ≡ str) ↔ NulFree str
c_str_whole_iff str = (
  λ e. subst NulFree (sym (c_str-terminated str) ∙ e) (c_str-NulFree str),
  c_str_terminated str [],
)

module _ (d : Classes) (conn : d.Connection) (vec : d.Vector) (row : ℕ) (w : d.World) where
  -- The buffer holds the text of the row's value, which is not NULL; a caller that reads up to the first
  -- NUL gets the text as far as there is none in it.
  pub record Reads (buffer : Bytes) : Type 0 where
    pub value : d.Value
    pub text : Bytes
    pub got : d.get_value vec row w ≡ some value
    pub not_null : d.is_null value ≡ false
    pub cast : d.cast_to_string conn value w ≡ some text
    pub holds : buffer ≡ text ++ 0 ∷ []
    pub read : c_str buffer ≡ c_str text
    pub whole_iff : (c_str buffer ≡ text) ↔ NulFree text

  abbrev pub ReadsResult : Option Bytes → Type 0
  ReadsResult none = Unit
  ReadsResult (some buffer) = Reads buffer

  terminated-Reads :
      (v : d.Value) (str : Bytes)
      → d.get_value vec row w ≡ some v
      → d.is_null v ≡ false
      → d.cast_to_string conn v w ≡ some str
      → Reads (terminated str)
  terminated-Reads v str g n c = record {
    value = v;
    text = str;
    got = g;
    not_null = n;
    cast = c;
    holds = terminated-nul str;
    read = c_str-terminated str;
    whole_iff = c_str_whole_iff str;
  }

  get_string-ReadsResult : ReadsResult (duckdb_get_string d conn (some vec) row w)
  unfolding duckdb_get_string value_string copied
  get_string-ReadsResult = elim (Option-cases (d.get_value vec row w)) [
    | inl failed ↦ rw (failed, duckdb_get_string) tt
    | inr (v, got) ↦ elim (Bool-cases (d.is_null v)) [
      | inl null ↦ rw (got, null, duckdb_get_string) tt
      | inr there ↦ elim (Option-cases (d.cast_to_string conn v w)) [
        | inl failed ↦ rw (got, there, failed, duckdb_get_string) tt
        | inr (str, cast) ↦ elim (Bool-cases (d.has_room (length str + 1) w)) [
          | inl room ↦
              rw (got, there, cast, room, duckdb_get_string) (terminated-Reads v str got there cast)
          | inr full ↦ rw (got, there, cast, full, duckdb_get_string) tt
        ]
      ]
    ]
  ]

  -- A buffer of `duckdb_get_string` holds the text of a value that is not NULL and one NUL behind it; a
  -- caller reads from it the whole text exactly if there is no NUL in the text, and else the part in
  -- front of the first.
  pub duckdb_get_string-Reads :
      (buffer : Bytes) → duckdb_get_string d conn (some vec) row w ≡ some buffer → Reads buffer
  duckdb_get_string-Reads buffer e = subst ReadsResult e get_string-ReadsResult
