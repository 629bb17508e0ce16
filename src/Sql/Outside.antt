-- ===== src/Sql/Outside.antt =====
-- Texts that leave no quotation open, and the flags of the scan behind them.
use pdo_duckdb_php.Common.{
  ℕ, true, false, [], ◌∷◌, ◌++◌, ◌≡◌, ◌≢◌, ◌↔◌, ◌⊎◌, refl, ap, ◌∙◌, inl, inr, arith, Bytes, All,
}
use pdo_duckdb_php.Sql.{Quotes, outside, toggle}

abbrev pub Without : ℕ → Bytes → Type 0
Without k = All (λ c. c ≢ k)

-- A text that leaves no quotation open: plain bytes, '...' and "...".
pub data Outside : Bytes → Type 0 where
  nil : Outside []
  plain : {c : ℕ} {s : Bytes} → c ≢ b'\'' → c ≢ b'"' → Outside s → Outside (c ∷ s)
  single :
      {t : Bytes} (body s : Bytes)
      → t ≡ b'\'' ∷ (body ++ (b'\'' ∷ s))
      → Without b'\'' body
      → Outside s
      → Outside t
  double :
      {t : Bytes} (body s : Bytes)
      → t ≡ b'"' ∷ (body ++ (b'"' ∷ s))
      → Without b'"' body
      → Outside s
      → Outside t

-- The flags behind a text.
abbrev pub scan : Quotes → Bytes → Quotes
scan q [] = q
scan q (c ∷ s) = scan (toggle c q) s

abbrev pub in_single : Quotes
in_single = record { in_sq = true; in_dq = false }

abbrev in_double : Quotes
in_double = record { in_sq = false; in_dq = true }

scan_single :
    (body s : Bytes) → Without b'\'' body → scan in_single (body ++ (b'\'' ∷ s)) ≡ scan outside s
unfolding toggle
scan_single [] s h = refl
scan_single (c ∷ body) s h = ground (arith, scan_single body s h.1)

scan_double :
    (body s : Bytes) → Without b'"' body → scan in_double (body ++ (b'"' ∷ s)) ≡ scan outside s
unfolding toggle
scan_double [] s h = refl
scan_double (c ∷ body) s h = ground (arith, scan_double body s h.1)

pub Outside-scan : {s : Bytes} → Outside s → scan outside s ≡ outside
unfolding toggle
Outside-scan nil = refl
Outside-scan (plain n m o) = ground (arith, Outside-scan o)
Outside-scan (single body s e w o) = rw e (scan_single body s w ∙ Outside-scan o)
Outside-scan (double body s e w o) = rw e (scan_double body s w ∙ Outside-scan o)

-- A text that closes the open quotation and leaves none open.
record Closes (k : ℕ) (t : Bytes) : Type 0 where
  body : Bytes
  after : Bytes
  splits : t ≡ body ++ (k ∷ after)
  inside : Without k body
  rest : Outside after

Closes-here : (k c : ℕ) (s : Bytes) → c ≡ k → Outside s → Closes k (c ∷ s)
Closes-here k c s e o = record { body = []; after = s; splits = rw e; inside = tt; rest = o }

Closes-cons : (k c : ℕ) (s : Bytes) → c ≢ k → Closes k s → Closes k (c ∷ s)
Closes-cons k c s n h = record {
  body = c ∷ h.body;
  after = h.after;
  splits = ap (◌∷◌ c) h.splits;
  inside = (n, h.inside);
  rest = h.rest;
}

quote_cases : (c : ℕ) → (c ≡ b'\'') ⊎ (c ≡ b'"') ⊎ ((c ≢ b'\'') × (c ≢ b'"'))
quote_cases c = grind arith

-- What flags that end outside say of the text, from each start.
record Parses (s : Bytes) : Type 0 where
  from_outside : scan outside s ≡ outside → Outside s
  from_single : scan in_single s ≡ outside → Closes b'\'' s
  from_double : scan in_double s ≡ outside → Closes b'"' s

Parses-nil : Parses []
Parses-nil = record { from_outside = λ e. nil; from_single = λ e. cc; from_double = λ e. cc }

Parses-single : (s : Bytes) → Parses s → Parses (b'\'' ∷ s)
unfolding toggle
Parses-single s p = record {
  from_outside = λ e.
      let h = p.from_single e in single h.body h.after (ap (◌∷◌ b'\'') h.splits) h.inside h.rest;
  from_single = λ e. Closes-here _ _ s refl (p.from_outside e);
  from_double = λ e. Closes-cons _ _ s (omega arith) (p.from_double e);
}

Parses-double : (s : Bytes) → Parses s → Parses (b'"' ∷ s)
unfolding toggle
Parses-double s p = record {
  from_outside = λ e.
      let h = p.from_double e in double h.body h.after (ap (◌∷◌ b'"') h.splits) h.inside h.rest;
  from_single = λ e. Closes-cons _ _ s (omega arith) (p.from_single e);
  from_double = λ e. Closes-here _ _ s refl (p.from_outside e);
}

pub toggle_plain : (c : ℕ) (q : Quotes) → c ≢ b'\'' → c ≢ b'"' → toggle c q ≡ q
unfolding toggle
toggle_plain c q n m = ground arith

Parses-plain : (c : ℕ) (s : Bytes) → c ≢ b'\'' → c ≢ b'"' → Parses s → Parses (c ∷ s)
Parses-plain c s n m p = record {
  from_outside = λ e. plain n m (p.from_outside (rw (toggle_plain c outside n m) at e));
  from_single = λ e. Closes-cons _ c s n (p.from_single (rw (toggle_plain c in_single n m) at e));
  from_double = λ e. Closes-cons _ c s m (p.from_double (rw (toggle_plain c in_double n m) at e));
}

Parses-all : (s : Bytes) → Parses s
Parses-all [] = Parses-nil
Parses-all (c ∷ s) =
    let p = Parses-all s in
    elim (quote_cases c) [
      | inl e ↦ rw e (Parses-single s p)
      | inr (inl e) ↦ rw e (Parses-double s p)
      | inr (inr (n, m)) ↦ Parses-plain c s n m p
    ]

-- The flags are those of no quotation exactly if the text leaves none open.
pub scan-Outside : (s : Bytes) → (scan outside s ≡ outside) ↔ Outside s
scan-Outside s = ((Parses-all s).from_outside, Outside-scan)
