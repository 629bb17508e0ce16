-- ===== src/Sql/Placeholders.antt =====
-- duckdb_driver.c: which bytes `zstr_prepare` rewrites.
use pdo_duckdb_php.Common.{
  ℕ, ◌≤◌, true, [], ◌∷◌, ◌++◌, Option, none, some, ◌≡◌, ◌≢◌, ◌↔◌, ◌⊎◌, refl, ap, arith, Bytes,
  get_elem?, length,
}
use pdo_duckdb_php.Sql.{
  Quotes, outside, toggle, is_name_start, name_follows, not_after_colon, prepared_byte,
  prepare_loop, zstr_prepare,
}
use pdo_duckdb_php.Sql.Buffers.{without_nul}
use pdo_duckdb_php.Sql.Outside.{Outside, scan, scan-Outside, toggle_plain}

-- The byte before the end of a text.
abbrev pub last_byte : Option ℕ → Bytes → Option ℕ
last_byte prev [] = prev
last_byte prev (c ∷ s) = last_byte (some c) s

-- What the loop writes for the byte `c` behind `xs`.
prepare_loop_at :
    (q : Quotes) (prev : Option ℕ) (xs : Bytes) (c : ℕ) (ys : Bytes)
    → c ≢ 0
    → get_elem? (prepare_loop q prev (xs ++ (c ∷ ys))) (length (without_nul xs))
      ≡ some (prepared_byte (toggle c (scan q xs)) (last_byte prev xs) c ys)
unfolding prepare_loop
prepare_loop_at q prev [] c ys n = ground arith
prepare_loop_at q prev (x ∷ xs) c ys n = ground (
  arith,
  toggle_plain x q,
  prepare_loop_at q (some x) xs c ys n,
  prepare_loop_at (toggle x q) (some x) xs c ys n,
)

-- A letter or an underscore.
abbrev pub IsNameStart : ℕ → Type 0
IsNameStart c = (b'a' ≤ c) × (c ≤ b'z') ⊎ (b'A' ≤ c) × (c ≤ b'Z') ⊎ (c ≡ b'_')

abbrev pub StartsName : Bytes → Type 0
StartsName s = (c : ℕ) × (t : Bytes) × (s ≡ c ∷ t) × IsNameStart c

abbrev pub EndsInColon : Bytes → Type 0
EndsInColon s = (t : Bytes) × (s ≡ t ++ (b':' ∷ []))

starts : (c : ℕ) (s : Bytes) → StartsName (c ∷ s) → is_name_start c ≡ true
unfolding is_name_start
starts c s (d, t, e, n) = ground arith

name_follows-StartsName : (s : Bytes) → (name_follows s ≡ true) ↔ StartsName s
unfolding name_follows
name_follows-StartsName [] = (λ e. cc, λ h. cc (h.2))
name_follows-StartsName (c ∷ s) = (λ e. (c, s, refl, ground arith), λ h. starts c s h)

last_byte-concat : (prev : Option ℕ) (t : Bytes) (c : ℕ) → last_byte prev (t ++ (c ∷ [])) ≡ some c
last_byte-concat prev [] c = refl
last_byte-concat prev (x ∷ t) c = last_byte-concat (some x) t c

ends_in :
    (p : ℕ) (s : Bytes) (c : ℕ)
    → last_byte (some p) s ≡ some c
    → (t : Bytes) × (p ∷ s ≡ t ++ (c ∷ []))
ends_in p [] c e = ([], ground arith)
ends_in p (x ∷ s) c e = let (t, h) = ends_in x s c e in (p ∷ t, ap (◌∷◌ p) h)

not_after : (o : Option ℕ) → o ≢ some b':' → not_after_colon o ≡ true
unfolding not_after_colon
not_after none n = refl
not_after (some c) n = ground arith

EndsInColon-last_byte : (s : Bytes) → last_byte none s ≡ some b':' → EndsInColon s
EndsInColon-last_byte [] e = cc
EndsInColon-last_byte (c ∷ s) e = ends_in c s b':' e

not_after_colon-EndsInColon :
    (s : Bytes) → (not_after_colon (last_byte none s) ≡ true) ↔ (¬ EndsInColon s)
unfolding not_after_colon
not_after_colon-EndsInColon s = (
  λ e m. cc (e, ap (λ t. not_after_colon (last_byte none t)) m.1, last_byte-concat none m.0 b':'),
  λ n. not_after (last_byte none s) (λ e. n (EndsInColon-last_byte s e)),
)

colon_byte :
    (q : Quotes) (prev : Option ℕ) (ys : Bytes)
    → (prepared_byte q prev b':' ys ≡ b'$')
      ↔ ((q ≡ outside) × (name_follows ys ≡ true) × (not_after_colon prev ≡ true))
unfolding prepared_byte
colon_byte q prev ys = (λ e. ground arith, λ h. ground arith)

-- A colon becomes `$` exactly if no quotation is open before it, the byte behind it starts a name,
-- and the byte before it is no colon.
pub zstr_prepare-colon :
    (xs ys : Bytes)
    → (get_elem? (zstr_prepare (xs ++ (b':' ∷ ys))) (length (without_nul xs)) ≡ some b'$')
      ↔ (Outside xs × StartsName ys × (¬ EndsInColon xs))
unfolding zstr_prepare
zstr_prepare-colon xs ys =
    let at = prepare_loop_at outside none xs b':' ys (omega arith) in
    let same = toggle_plain b':' (scan outside xs) (omega arith) (omega arith) in
    let (to, from) = colon_byte (scan outside xs) (last_byte none xs) ys in
    let (open_to, open_from) = scan-Outside xs in
    let (name_to, name_from) = name_follows-StartsName ys in
    let (end_to, end_from) = not_after_colon-EndsInColon xs in
    (
      λ e. let (o, n, m) = to (cc (e, at, same)) in (open_to o, name_to n, end_to m),
      λ (o, n, m). cc (at, same, from (open_from o, name_from n, end_from m)),
    )

-- Every byte but a colon and a NUL is written as it is, in its place.
pub zstr_prepare-other :
    (xs : Bytes) (c : ℕ) (ys : Bytes)
    → c ≢ b':'
    → c ≢ 0
    → get_elem? (zstr_prepare (xs ++ (c ∷ ys))) (length (without_nul xs)) ≡ some c
unfolding zstr_prepare prepared_byte
zstr_prepare-other xs c ys n z = ground (arith, prepare_loop_at outside none xs c ys z)
