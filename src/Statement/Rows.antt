-- ===== src/Statement/Rows.antt =====
-- duckdb_statement.c: what one fetch delivers of the rows that are pending.
use pdo_duckdb_php.Common.{
  ℕ, suc, ◌-◌, ◌≤◌, Bool, true, false, not, ◌||◌, Option, none, some, List, [], ◌∷◌, ◌++◌, ◌≡◌, ◌≢◌,
  ◌∙◌, refl, sym, ap, inl, inr, arith, leb, Option-cases, Bool-cases, length, head?, tail, is_null,
}
use mathlib.Core.Path.{subst, subst₂}
use pdo_duckdb_php.Api.{Duckdb}
use pdo_duckdb_php.Statement.{Machine}
use pdo_duckdb_php.Statement.Fetch.{
  inc64, bump, enter_chunk, leave_chunk, load_chunk, duckdb_stmt_fetch,
}
use pdo_duckdb_php.Statement.Chunks.{
  Delivers, rows_from, rows_of, rest_rows, Placed, rest_rows-nil, rest_rows-cons, source, pending,
  IsPlaced, leave_chunk-Looks, next_chunk-Looks,
}

module _ {d : Duckdb} (v : Delivers d) where
  -- One fetch against the rows that were pending.
  abbrev pub Fetches : List (d.Chunk × ℕ) → Machine d × Bool → Type 0
  Fetches [] (m, b) = (b ≡ false) × (pending v m ≡ []) × IsPlaced v m
  Fetches ((c, i) ∷ rest) (m, b) =
      (b ≡ true) × (m.chunk ≡ some c) × (m.chunk_idx ≡ i) × (pending v m ≡ rest) × IsPlaced v m

  pending-live :
      (m : Machine d)
      → m.result_set ≡ true
      → m.done ≡ false
      → pending v m
        ≡ rest_rows m.chunk m.chunk_idx m.chunk_size ++ rows_of d.data_chunk_get_size (source v m)
  pending-live m r f = rw (r, f)

  enter_some :
      (n : Machine d) (c : d.Chunk) (xs : List d.Chunk)
      → n.result_set ≡ true
      → n.done ≡ false
      → n.next_chunk_index ≤ length (v.chunks n.result)
      → source v n ≡ xs
      → Fetches (rows_of d.data_chunk_get_size (c ∷ xs)) (enter_chunk n (some c))
  unfolding enter_chunk
  enter_some n c xs r f h e =
      let k : d.data_chunk_get_size c ≡ suc (d.data_chunk_get_size c - 1) =
        omega (arith, v.not_empty c) in
      let later = λ (s : List d.Chunk).
        rows_from c 1 (d.data_chunk_get_size c - 1) ++ rows_of d.data_chunk_get_size s in
      let at = (enter_chunk n (some c)).0 in
      let waiting : pending v at ≡ later xs = pending-live at r f ∙ ap later e in
      let there : IsPlaced v at = record { placed = (refl, v.not_empty c); index_le = h } in
      subst
        (λ k.
          Fetches (rows_from c 0 k ++ rows_of d.data_chunk_get_size xs) (enter_chunk n (some c)))
        (sym k) (refl, refl, refl, waiting, there)

  enter_chunk-Fetches :
      (n : Machine d) (s : List d.Chunk) (c : Option d.Chunk)
      → n.result_set ≡ true
      → n.done ≡ false
      → n.next_chunk_index ≤ length (v.chunks n.result)
      → source v n ≡ tail s
      → c ≡ head? s
      → Fetches (rows_of d.data_chunk_get_size s) (enter_chunk n c)
  unfolding enter_chunk
  enter_chunk-Fetches n [] none r f h e q = ground arith
  enter_chunk-Fetches n [] (some c) r f h e q = cc
  enter_chunk-Fetches n (x ∷ xs) none r f h e q = cc
  enter_chunk-Fetches n (x ∷ xs) (some c) r f h e q =
      subst (λ y. Fetches (rows_of d.data_chunk_get_size (y ∷ xs)) (enter_chunk n (some c))) (cc)
        (enter_some n c xs r f h e)

  load_chunk-Fetches :
      (m : Machine d)
      → m.result_set ≡ true
      → m.done ≡ false
      → m.next_chunk_index ≤ length (v.chunks m.result)
      → Fetches (rows_of d.data_chunk_get_size (source v m)) (load_chunk m)
  unfolding load_chunk
  load_chunk-Fetches m r f h =
      let (l, e) = leave_chunk-Looks v m h in
      let (n, e', q) = next_chunk-Looks v (leave_chunk m) l.index_le in
      enter_chunk-Fetches _ (source v m) _ (n.same_set ∙ l.same_set ∙ r)
        (n.same_done ∙ l.same_done ∙ f) n.index_le (e' ∙ ap tail e) (q ∙ ap head? e)

  live_flags : (set done : Bool) → (not set || done) ≡ false → (set ≡ true) × (done ≡ false)
  live_flags set done h = ground arith

  null_chunk :
      (m : Machine d)
      → m.chunk ≡ none
      → (is_null m.chunk || leb m.chunk_size (inc64 m.chunk_idx)) ≢ false
  null_chunk m e h = ground arith

  fetch_over :
      (m : Machine d)
      → IsPlaced v m
      → (not m.result_set || m.done) ≡ true
      → Fetches (pending v m) (duckdb_stmt_fetch m)
  unfolding duckdb_stmt_fetch
  fetch_over m p o = rw (o, duckdb_stmt_fetch) (refl, rw o, p)

  fetch_loads :
      (m : Machine d)
      → IsPlaced v m
      → (not m.result_set || m.done) ≡ false
      → (is_null m.chunk || leb m.chunk_size (inc64 m.chunk_idx)) ≡ true
      → Fetches (pending v m) (duckdb_stmt_fetch m)
  unfolding duckdb_stmt_fetch bump
  fetch_loads m p o l =
      let live = live_flags m.result_set m.done o in
      subst₂ Fetches
        (sym (
          pending-live m live.0 live.1
          ∙ ap (λ t. t ++ rows_of d.data_chunk_get_size (source v m))
              (rest_rows-nil d.data_chunk_get_size m.chunk m.chunk_idx m.chunk_size v.size_fits
                p.placed l)))
        (sym (rw (o, l, duckdb_stmt_fetch))) (load_chunk-Fetches (bump m) live.0 live.1 p.index_le)

  fetch_moves :
      (m : Machine d)
      → IsPlaced v m
      → (not m.result_set || m.done) ≡ false
      → (is_null m.chunk || leb m.chunk_size (inc64 m.chunk_idx)) ≡ false
      → Fetches (pending v m) (duckdb_stmt_fetch m)
  unfolding duckdb_stmt_fetch bump
  fetch_moves m p o l = elim (Option-cases m.chunk) [
    | inl e ↦ absurd (null_chunk m e l)
    | inr (c, e) ↦
        let live = live_flags m.result_set m.done o in
        let at = subst (λ k. Placed size k m.chunk_idx m.chunk_size) e p.placed in
        let next : leb m.chunk_size (inc64 m.chunk_idx) ≡ false = ground arith in
        let (rows, inside, idx) =
          rest_rows-cons size c m.chunk_idx m.chunk_size v.size_fits at next in
        let later = rows_of size (source v m) in
        let now = ap (λ k. rest_rows k m.chunk_idx m.chunk_size) e ∙ rows in
        let waiting =
          pending-live (bump m) live.0 live.1
          ∙ ap (λ k. rest_rows k (inc64 m.chunk_idx) m.chunk_size ++ later) e
          ∙ ap (λ i. rest_rows (some c) i m.chunk_size ++ later) idx in
        let there : IsPlaced v (bump m) = record {
          placed = subst₂ (λ k i. Placed size k i m.chunk_size) (sym e) (sym idx) (at.0, inside);
          index_le = p.index_le;
        } in
        subst₂ Fetches (sym (pending-live m live.0 live.1 ∙ ap (λ t. t ++ later) now))
          (sym (rw (o, l, duckdb_stmt_fetch))) (refl, e, idx, waiting, there)
  ]
    where
      size : d.Chunk → ℕ
      size = d.data_chunk_get_size

  -- A fetch delivers the first pending row and leaves the others pending; it reports the end exactly
  -- if none is pending. The row lies inside its chunk.
  pub duckdb_stmt_fetch-Fetches :
      (m : Machine d) → IsPlaced v m → Fetches (pending v m) (duckdb_stmt_fetch m)
  duckdb_stmt_fetch-Fetches m p = elim (Bool-cases (not m.result_set || m.done)) [
    | inl o ↦ fetch_over m p o
    | inr o ↦ elim (Bool-cases (is_null m.chunk || leb m.chunk_size (inc64 m.chunk_idx))) [
      | inl l ↦ fetch_loads m p o l
      | inr l ↦ fetch_moves m p o l
    ]
  ]
