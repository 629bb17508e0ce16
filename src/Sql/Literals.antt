-- ===== src/Sql/Literals.antt =====
-- duckdb_driver.c: literals made by `PDO::quote`, as SQL reads them and in the SQL of a prepared
-- statement.
use pdo_duckdb_php.Common.{
  ℕ, false, [], ◌∷◌, ◌++◌, Option, none, some, ◌≡◌, ◌≢◌, refl, ap, ◌∙◌, inl, inr, arith, ◌==◌,
  if◌then◌else◌, Bool-cases, Bytes, NulFree, c_str, c_str_terminated,
}
use pdo_duckdb_php.Sql.{
  Quotes, outside, toggle, name_follows, prepared_byte, prepare_loop, zstr_prepare, quote_loop,
  duckdb_handle_quoter,
}
use pdo_duckdb_php.Sql.Buffers.{prepared, prepare_loop-eq, prepared-NulFree}
use pdo_duckdb_php.Sql.Outside.{Outside, scan, in_single, scan-Outside}
use pdo_duckdb_php.Sql.Placeholders.{last_byte}

-- A byte in front of what was read.
abbrev consed : ℕ → Option (Bytes × Bytes) → Option (Bytes × Bytes)
consed c none = none
consed c (some (s, rest)) = some (c ∷ s, rest)

-- How SQL reads a string literal behind its opening quote: '' is a quote, a single ' ends it. The
-- text and what follows the literal; `none` if it has no end.
abbrev read_body : Bytes → Option (Bytes × Bytes)
read_body [] = none
read_body (c ∷ []) = if c == b'\'' then some ([], []) else none
read_body (c ∷ d ∷ s) =
    let one = consed c (read_body (d ∷ s)) in
    let two = consed b'\'' (read_body s) in
    if c == b'\'' then if d == b'\'' then two else some ([], d ∷ s) else one

abbrev pub read_literal : Bytes → Option (Bytes × Bytes)
read_literal [] = none
read_literal (c ∷ s) = let body = read_body s in if c == b'\'' then body else none

-- What follows the literal does not go on with a quote.
abbrev pub NoQuote : Bytes → Type 0
NoQuote [] = Unit
NoQuote (c ∷ s) = c ≢ b'\''

read_body_cons :
    (c : ℕ) (s : Bytes) (r : Bytes × Bytes)
    → c ≢ b'\''
    → read_body s ≡ some r
    → read_body (c ∷ s) ≡ some (c ∷ r.0, r.1)
read_body_cons c [] r n e = cc
read_body_cons c (d ∷ s) r n e = ground arith

read_body_end : (s : Bytes) → NoQuote s → read_body (b'\'' ∷ s) ≡ some ([], s)
read_body_end [] h = refl
read_body_end (c ∷ s) h = ground arith

read_body-quote_loop :
    (s rest : Bytes) → NoQuote rest → read_body (quote_loop s ++ rest) ≡ some (s, rest)
unfolding quote_loop
read_body-quote_loop [] rest h = read_body_end rest h
read_body-quote_loop (c ∷ s) rest h = elim (Bool-cases (c == b'\'')) [
  | inl e ↦ ground (arith, read_body-quote_loop s rest h)
  | inr e ↦ ground (
    arith,
    read_body_cons c (quote_loop s ++ rest) (s, rest) (ground arith)
        (read_body-quote_loop s rest h),
  )
]

-- By the rule of SQL, the literal that `PDO::quote` makes of any bytes reads as these bytes and ends
-- where it was made to end, where what follows it does not begin with a quote.
pub read_literal-quoter :
    (s rest : Bytes) → NoQuote rest → read_literal (duckdb_handle_quoter s ++ rest) ≡ some (s, rest)
unfolding duckdb_handle_quoter
read_literal-quoter s rest h = read_body-quote_loop s rest h

prepare_quote_loop :
    (s : Bytes) (prev : Option ℕ) (ys : Bytes)
    → NulFree s
    → prepare_loop in_single prev (quote_loop s ++ ys)
      ≡ quote_loop s ++ prepare_loop outside (some b'\'') ys
unfolding quote_loop prepare_loop
prepare_quote_loop [] prev ys h = ground arith
prepare_quote_loop (c ∷ s) prev ys h =
    ground (arith, prepare_quote_loop s (some c) ys h.1, prepare_quote_loop s (some b'\'') ys h.1)

toggle_nul : (q : Quotes) → toggle 0 q ≡ q
unfolding toggle
toggle_nul q = refl

name_follows-append :
    (xs ys : Bytes) → name_follows ys ≡ false → name_follows (xs ++ ys) ≡ name_follows xs
unfolding name_follows
name_follows-append [] ys h = h
name_follows-append (x ∷ xs) ys h = refl

prepared_byte-append :
    (q : Quotes) (prev : Option ℕ) (c : ℕ) (xs ys : Bytes)
    → name_follows ys ≡ false
    → prepared_byte q prev c (xs ++ ys) ≡ prepared_byte q prev c xs
unfolding prepared_byte
prepared_byte-append q prev c xs ys h = rw (name_follows-append xs ys h)

prepared-append :
    (q : Quotes) (prev : Option ℕ) (xs ys : Bytes)
    → name_follows ys ≡ false
    → prepare_loop q prev (xs ++ ys)
      ≡ prepared q prev xs ++ prepare_loop (scan q xs) (last_byte prev xs) ys
unfolding prepare_loop
prepared-append q prev [] ys h = refl
prepared-append q prev (c ∷ xs) ys h = ground (
  arith,
  toggle_nul q,
  prepared_byte-append (toggle c q) prev c xs ys h,
  prepared-append q (some c) xs ys h,
  prepared-append (toggle c q) (some c) xs ys h,
)

prepare_fresh :
    (q : Quotes) (c : ℕ) (ys : Bytes)
    → c ≢ b':'
    → prepare_loop q (some c) ys ≡ prepare_loop q none ys
unfolding prepare_loop
prepare_fresh q c [] n = refl
prepare_fresh q c (y ∷ ys) n = ground arith

c_str-zstr_prepare : (s : Bytes) → c_str (zstr_prepare s) ≡ prepared outside none s
unfolding zstr_prepare
c_str-zstr_prepare s =
    ap c_str (prepare_loop-eq outside none s)
    ∙ c_str_terminated _ [] (prepared-NulFree outside none s)

prepare_quoter :
    (s : Bytes) (prev : Option ℕ) (ys : Bytes)
    → NulFree s
    → prepare_loop outside prev (duckdb_handle_quoter s ++ ys)
      ≡ duckdb_handle_quoter s ++ prepare_loop outside none ys
unfolding duckdb_handle_quoter prepare_loop
prepare_quoter s prev ys h = ap (◌∷◌ b'\'') (
    prepare_quote_loop s (some b'\'') ys h
    ∙ ap (◌++◌ (quote_loop s)) (prepare_fresh outside b'\'' ys (omega arith)))

quoter_starts : (s ys : Bytes) → name_follows (duckdb_handle_quoter s ++ ys) ≡ false
unfolding duckdb_handle_quoter name_follows
quoter_starts s ys = refl

loop-quoter :
    (xs s ys : Bytes)
    → Outside xs
    → NulFree s
    → prepare_loop outside none (xs ++ (duckdb_handle_quoter s ++ ys))
      ≡ prepared outside none xs ++ (duckdb_handle_quoter s ++ prepare_loop outside none ys)
loop-quoter xs s ys o h =
    let literal = duckdb_handle_quoter s ++ ys in
    prepared-append outside none xs literal (quoter_starts s ys)
    ∙ ap (λ q. prepared outside none xs ++ prepare_loop q (last_byte none xs) literal)
        ((scan-Outside xs).1 o)
    ∙ ap (◌++◌ (prepared outside none xs)) (prepare_quoter s (last_byte none xs) ys h)

-- A literal that `PDO::quote` makes of a text without NUL, in the SQL of a prepared statement where no
-- quotation is open, is handed on as it is, and the texts around it are prepared as if it were not there.
pub zstr_prepare-quoter :
    (xs s ys : Bytes)
    → Outside xs
    → NulFree s
    → zstr_prepare (xs ++ (duckdb_handle_quoter s ++ ys))
      ≡ c_str (zstr_prepare xs) ++ (duckdb_handle_quoter s ++ zstr_prepare ys)
unfolding zstr_prepare
zstr_prepare-quoter xs s ys o h = rw (c_str-zstr_prepare xs) (loop-quoter xs s ys o h)
