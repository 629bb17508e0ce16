-- ===== src/Overrides/Encoding.antt =====
-- pdo_duckdb.c: what the encoded array of `execute` binds, and where the encoding stops.
use pdo_duckdb_php.Common.{
  ℕ, ◌+◌, ◌≡◌, refl, ap, List, [], ◌∷◌, ◌++◌, Option, none, some, ◌⊎◌, inl, inr, length, All, Bytes,
  Option-cases, arith,
}
use mathlib.Core.Path.{subst}
use pdo_duckdb_php.Value.{Key}
use pdo_duckdb_php.Types.{TypeId}
use pdo_duckdb_php.Params.{Bound, Parameter, BindType, bind_text, chosen}
use pdo_duckdb_php.Overrides.{
  Entry, plain, reference, Php, encode_entry, encode_entries, with_entry,
}

-- What the hook finds behind an entry.
abbrev pub deref : Entry → Parameter
deref (plain v) = v
deref (reference v) = v

abbrev pub IsEncodable : Entry → Type 0
IsEncodable (plain (Parameter.structured none)) = ⊥
IsEncodable e = Unit

abbrev pub IsNoArray : Entry → Type 0
IsNoArray (plain (Parameter.structured json)) = ⊥
IsNoArray e = Unit

-- Only an array or object that stands in the array itself is replaced: a reference is left as it is,
-- whatever stands behind it, and so is any other value.
abbrev pub KeepsOther : Entry → Entry → Type 0
KeepsOther (plain (Parameter.structured json)) e' = Unit
KeepsOther e e' = e' ≡ e

-- Two entries for which the hook binds the same, as PDO calls it for the values of an array, with the
-- type of a string; the second is no array, unless both are one reference.
abbrev pub BindsSame : Entry → Entry → Type 0
BindsSame e e' =
    ((ty : TypeId) → chosen ty BindType.other (deref e') ≡ chosen ty BindType.other (deref e))
    × IsNoArray e'
    × KeepsOther e e'

-- The same keys in order, with such entries.
abbrev pub BindSame : List (Key × Entry) → List (Key × Entry) → Type 0
BindSame [] [] = Unit
BindSame ((key, e) ∷ rest) ((key', e') ∷ rest') =
    (key' ≡ key) × BindsSame e e' × BindSame rest rest'
BindSame _ _ = ⊥

-- The first entry, no reference, that JSON cannot encode stands at a position that counts from 1.
abbrev pub FailsAt : List (Key × Entry) → ℕ → Type 0
FailsAt es position =
    (before : List (Key × Entry)) × (key : Key) × (after : List (Key × Entry)) × (es
      ≡ before ++ ((key, plain (Parameter.structured none)) ∷ after))
    × (position ≡ length before + 1)
    × All (λ p. IsEncodable p.1) before

abbrev pub Encoded : List (Key × Entry) → ℕ → ℕ ⊎ List (Key × Entry) → Type 0
Encoded es n (inr es') = BindSame es es'
Encoded es n (inl position) = (m : ℕ) × (position ≡ n + m) × FailsAt es m

module _ (k : Php) (keeps : (s : Bytes) → (k.text_of s).bytes ≡ s) where
  abbrev EntryEncoded : Entry → Option Entry → Type 0
  EntryEncoded e none = e ≡ plain (Parameter.structured none)
  EntryEncoded e (some e') = BindsSame e e' × IsEncodable e

  encode_entry-EntryEncoded : (e : Entry) → EntryEncoded e (encode_entry k e)
  unfolding encode_entry chosen bind_text
  encode_entry-EntryEncoded (reference v) = ((λ ty. refl, tt, refl), tt)
  encode_entry-EntryEncoded (plain (Parameter.structured none)) = refl
  encode_entry-EntryEncoded (plain (Parameter.structured (some json))) =
      ((λ ty. ap (λ s. some (Bound.varchar s)) (keeps json), tt, tt), tt)
  encode_entry-EntryEncoded (plain Parameter.null) = ((λ ty. refl, tt, refl), tt)
  encode_entry-EntryEncoded (plain (Parameter.resource o)) = ((λ ty. refl, tt, refl), tt)
  encode_entry-EntryEncoded (plain (Parameter.boolean b)) = ((λ ty. refl, tt, refl), tt)
  encode_entry-EntryEncoded (plain (Parameter.long n)) = ((λ ty. refl, tt, refl), tt)
  encode_entry-EntryEncoded (plain (Parameter.double w)) = ((λ ty. refl, tt, refl), tt)
  encode_entry-EntryEncoded (plain (Parameter.text s)) = ((λ ty. refl, tt, refl), tt)

  with_entry-Encoded :
      (n : ℕ) (key : Key) (e e' : Entry) (rest : List (Key × Entry)) (r : ℕ ⊎ List (Key × Entry))
      → BindsSame e e'
      → IsEncodable e
      → Encoded rest (n + 1) r
      → Encoded ((key, e) ∷ rest) n (with_entry (key, e') r)
  with_entry-Encoded n key e e' rest (inr es) same ok h = (refl, same, h)
  with_entry-Encoded n key e e' rest (inl p) same ok
        (m, at, (before, key', after, split, pos, oks)) =
      (
        m + 1,
        omega arith,
        ((key, e) ∷ before, key', after, ap (λ es. (key, e) ∷ es) split, omega arith, (ok, oks)),
      )

  pub encode_entries-Encoded :
      (n : ℕ) (es : List (Key × Entry)) → Encoded es n (encode_entries k n es)
  unfolding encode_entries
  encode_entries-Encoded n [] = tt
  encode_entries-Encoded n ((key, e) ∷ rest) = elim (Option-cases (encode_entry k e)) [
    | inl bad ↦
        rw (bad, encode_entries)
          (
            1,
            refl,
            (
              [],
              key,
              rest,
              ap (λ e. (key, e) ∷ rest) (subst (EntryEncoded e) bad (encode_entry-EntryEncoded e)),
              refl,
              tt,
            ),
          )
    | inr (e', good) ↦
        let (same, ok) = subst (EntryEncoded e) good (encode_entry-EntryEncoded e) in
        rw (good, encode_entries)
          (with_entry-Encoded n key e e' rest (encode_entries k (n + 1) rest) same ok
            (encode_entries-Encoded (n + 1) rest))
  ]
