-- ===== src/Sql/Buffers.antt =====
-- duckdb_driver.c: what the text functions write into their buffers, and the sizes of these.
use pdo_duckdb_php.Common.{
  ℕ, ◌+◌, ◌*◌, ◌≤◌, true, false, [], ◌∷◌, ◌++◌, Option, none, some, ◌≡◌, refl, ap, ◌∙◌, sym, inl,
  inr, arith, ◌==◌, if◌then◌else◌, Bool-cases, Bytes, NulFree, c_str, c_str_terminated, length,
  length-append,
}
use pdo_duckdb_php.Sql.{
  Quotes, outside, toggle, prepared_byte, prepare_loop, zstr_prepare, has_nul, strip_loop,
  zstr_strip_zerobytes, quote_loop, duckdb_handle_quoter, quoter_capacity,
}

-- The bytes of a text other than NUL.
abbrev pub without_nul : Bytes → Bytes
without_nul [] = []
without_nul (c ∷ cs) = let rest = without_nul cs in if c == 0 then rest else c ∷ rest

pub without_nul-NulFree : (s : Bytes) → NulFree (without_nul s)
without_nul-NulFree [] = tt
without_nul-NulFree (c ∷ s) = ground (arith, without_nul-NulFree s)

pub length-without_nul : (s : Bytes) → length (without_nul s) ≤ length s
length-without_nul [] = omega arith
length-without_nul (c ∷ s) = ground (arith, length-without_nul s)

strip_loop_lem : (s : Bytes) → strip_loop s ≡ without_nul s ++ (0 ∷ [])
unfolding strip_loop
strip_loop_lem [] = refl
strip_loop_lem (c ∷ s) = ground (arith, strip_loop_lem s)

without_nul_unchanged : (s : Bytes) → has_nul s ≡ false → without_nul s ≡ s
unfolding has_nul
without_nul_unchanged [] h = refl
without_nul_unchanged (c ∷ s) h = ground (arith, without_nul_unchanged s)

strip-eq : (s : Bytes) → zstr_strip_zerobytes s ≡ without_nul s ++ (0 ∷ [])
unfolding zstr_strip_zerobytes
strip-eq s = elim (Bool-cases (has_nul s)) [
  | inl found ↦ rw found (strip_loop_lem s)
  | inr clean ↦ rw clean (ap (λ t. t ++ (0 ∷ [])) (sym (without_nul_unchanged s clean)))
]

-- On both paths the buffer holds the bytes other than NUL in order and one terminator; DuckDB reads
-- all of them, and the buffer of `len + 1` bytes is not overrun.
pub zstr_strip_zerobytes_lem :
    (s : Bytes)
    → (zstr_strip_zerobytes s ≡ without_nul s ++ (0 ∷ []))
      × (c_str (zstr_strip_zerobytes s) ≡ without_nul s)
      × (length (zstr_strip_zerobytes s) ≤ length s + 1)
zstr_strip_zerobytes_lem s = (
  strip-eq s,
  ap c_str (strip-eq s) ∙ c_str_terminated (without_nul s) [] (without_nul-NulFree s),
  omega (
    arith,
    ap length (strip-eq s),
    length-append {0} (without_nul s) (0 ∷ []),
    length-without_nul s,
  ),
)

-- The bytes that DuckDB reads of a prepared text: the loop without the terminator.
abbrev pub prepared : Quotes → Option ℕ → Bytes → Bytes
prepared q prev [] = []
prepared q prev (c ∷ cs) = elim (c == 0) [
  | true ↦ prepared q (some c) cs
  | false ↦ prepared_byte (toggle c q) prev c cs ∷ prepared (toggle c q) (some c) cs
]

pub prepare_loop-eq :
    (q : Quotes) (prev : Option ℕ) (s : Bytes)
    → prepare_loop q prev s ≡ prepared q prev s ++ (0 ∷ [])
unfolding prepare_loop
prepare_loop-eq q prev [] = refl
prepare_loop-eq q prev (c ∷ s) =
    ground (arith, prepare_loop-eq q (some c) s, prepare_loop-eq (toggle c q) (some c) s)

pub prepared-NulFree : (q : Quotes) (prev : Option ℕ) (s : Bytes) → NulFree (prepared q prev s)
unfolding prepared_byte
prepared-NulFree q prev [] = tt
prepared-NulFree q prev (c ∷ s) =
    ground (arith, prepared-NulFree q (some c) s, prepared-NulFree (toggle c q) (some c) s)

pub length-prepared :
    (q : Quotes) (prev : Option ℕ) (s : Bytes) → length (prepared q prev s) ≡ length (without_nul s)
length-prepared q prev [] = refl
length-prepared q prev (c ∷ s) =
    ground (arith, length-prepared q (some c) s, length-prepared (toggle c q) (some c) s)

-- The prepared text has one byte for each source byte other than NUL, DuckDB reads all of them, and
-- the buffer of `len + 1` bytes is not overrun.
pub zstr_prepare_fits :
    (s : Bytes)
    → (c_str (zstr_prepare s) ++ (0 ∷ []) ≡ zstr_prepare s)
      × (length (c_str (zstr_prepare s)) ≡ length (without_nul s))
      × (length (zstr_prepare s) ≤ length s + 1)
unfolding zstr_prepare
zstr_prepare_fits s =
    let e = prepare_loop-eq outside none s in
    let shown = c_str_terminated _ [] (prepared-NulFree outside none s) in
    rw (e, shown)
      (
        refl,
        length-prepared outside none s,
        omega (
          arith,
          length-append {0} (prepared outside none s) (0 ∷ []),
          length-prepared outside none s,
          length-without_nul s,
        ),
      )

length-quote_loop : (s : Bytes) → length (quote_loop s) ≤ 2 * length s + 1
unfolding quote_loop
length-quote_loop [] = omega arith
length-quote_loop (c ∷ s) = ground (arith, length-quote_loop s)

-- The quoted literal and its terminator fit in the buffer that is asked for.
pub quoter_fits : (s : Bytes) → length (duckdb_handle_quoter s) + 1 ≤ quoter_capacity (length s)
unfolding duckdb_handle_quoter
quoter_fits s = omega (arith, length-quote_loop s)
