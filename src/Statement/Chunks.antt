-- ===== src/Statement/Chunks.antt =====
-- The chunks of a result, the rows in them, and where the next chunk comes from.
use pdo_duckdb_php.Common.{
  ℕ, suc, zero, ◌-◌, ◌^◌, ◌<◌, ◌≤◌, true, false, not, ◌||◌, Option, none, some, List, [], ◌∷◌, ◌++◌,
  ◌≡◌, refl, inl, inr, arith, if◌then◌else◌, leb, Option-cases, length, get_elem?, head?, tail,
  drop, head?-drop, drop-suc, drop_all, is_null,
}
use pdo_duckdb_php.Api.{Duckdb}
use pdo_duckdb_php.Swoole.{dispatch}
use pdo_duckdb_php.Statement.{Machine, drop_chunk}
use pdo_duckdb_php.Statement.Fetch.{inc64, next_chunk, leave_chunk}

-- The documented behaviour of results: `fetch_chunk` hands out the chunks of a streamed result in
-- turn and then NULL; `result_get_chunk` reads those of a materialised one by index; no chunk is
-- empty, and counts fit in an `idx_t`. Freeing a chunk and waiting for the lock fetch nothing.
pub record Delivers (d : Duckdb) : Type 0 where
  pub left : d.Result → d.World → List d.Chunk
  pub chunks : d.Result → List d.Chunk
  pub fetch_value : (r : d.Result) (w : d.World) → (d.fetch_chunk r w).1 ≡ head? (left r w)
  pub fetch_left : (r : d.Result) (w : d.World) → left r (d.fetch_chunk r w).0 ≡ tail (left r w)
  pub count_is : (r : d.Result) (w : d.World) → d.result_chunk_count r w ≡ length (chunks r)
  pub get_value :
      (r : d.Result) (i : ℕ) (w : d.World) → (d.result_get_chunk r i w).1 ≡ get_elem? (chunks r) i
  pub destroy_left :
      (r : d.Result) (c : d.Chunk) (w : d.World) → left r (d.destroy_data_chunk c w) ≡ left r w
  pub acquired_left :
      (r : d.Result) (l : d.Lock) (w : d.World) → left r (d.lock_acquired l w) ≡ left r w
  pub resumed_left : (r : d.Result) (w : d.World) → left r (d.async_resumed w) ≡ left r w
  pub clear_left : (r : d.Result) (l : d.Lock) (w : d.World) → left r (d.lock_clear l w) ≡ left r w
  pub not_empty : (c : d.Chunk) → 0 < d.data_chunk_get_size c
  pub size_fits : (c : d.Chunk) → d.data_chunk_get_size c < 2 ^ 64
  pub count_fits : (r : d.Result) → length (chunks r) < 2 ^ 64

-- A row is a chunk and an index into it, which is what `get_col` reads.
abbrev pub rows_from : {C : Type 0} → C → ℕ → ℕ → List (C × ℕ)
rows_from c i zero = []
rows_from c i (suc n) = (c, i) ∷ rows_from c (suc i) n

-- The rows of chunks of these sizes, in order.
abbrev pub rows_of : {C : Type 0} → (C → ℕ) → List C → List (C × ℕ)
rows_of size [] = []
rows_of size (c ∷ cs) = rows_from c 0 (size c) ++ rows_of size cs

-- The rows of the current chunk behind the current one.
abbrev pub rest_rows : {C : Type 0} → Option C → ℕ → ℕ → List (C × ℕ)
rest_rows none i n = []
rest_rows (some c) i n = rows_from c (suc i) (n - suc i)

-- The cursor stands on a row of its chunk.
abbrev pub Placed : {C : Type 0} → (C → ℕ) → Option C → ℕ → ℕ → Type 0
Placed size none i n = Unit
Placed size (some c) i n = (n ≡ size c) × (i < n)

pub rest_rows-nil :
    {C : Type 0} (size : C → ℕ) (c : Option C) (i n : ℕ)
    → ((c : C) → size c < 2 ^ 64)
    → Placed size c i n
    → (is_null c || leb n (inc64 i)) ≡ true
    → rest_rows c i n ≡ []
rest_rows-nil size none i n b p h = refl
rest_rows-nil size (some c) i n b p h = let e : n - suc i ≡ 0 = ground (arith, b c) in rw e

pub rest_rows-cons :
    {C : Type 0} (size : C → ℕ) (c : C) (i n : ℕ)
    → ((c : C) → size c < 2 ^ 64)
    → Placed size (some c) i n
    → leb n (inc64 i) ≡ false
    → (rest_rows (some c) i n ≡ (c, suc i) ∷ rest_rows (some c) (suc i) n)
      × (suc i < n)
      × (inc64 i ≡ suc i)
rest_rows-cons size c i n b p h =
    let e : n - suc i ≡ suc (n - suc (suc i)) = ground (arith, b c) in
    (rw e, ground (arith, b c), ground (arith, b c))

module _ {d : Duckdb} (v : Delivers d) where
  -- The chunks that the result still has.
  abbrev pub source : Machine d → List d.Chunk
  source m =
      if m.is_streaming
      then v.left m.result m.world
      else drop m.next_chunk_index (v.chunks m.result)

  -- The rows that are still to be fetched.
  abbrev pub pending : Machine d → List (d.Chunk × ℕ)
  pending m =
      if not m.result_set || m.done
      then []
      else rest_rows m.chunk m.chunk_idx m.chunk_size ++ rows_of d.data_chunk_get_size (source m)

  pub record IsPlaced (m : Machine d) : Type 0 where
    pub placed : Placed d.data_chunk_get_size m.chunk m.chunk_idx m.chunk_size
    pub index_le : m.next_chunk_index ≤ length (v.chunks m.result)

  dispatch_fetch :
      (l : Option d.Lock) (r : d.Result) (w : d.World)
      → ((dispatch d l (d.fetch_chunk r) w).1 ≡ head? (v.left r w))
        × (v.left r (dispatch d l (d.fetch_chunk r) w).0 ≡ tail (v.left r w))
  unfolding dispatch
  dispatch_fetch none r w = (v.fetch_value r w, v.fetch_left r w)
  dispatch_fetch (some l) r w =
      grind (arith, v.fetch_value, v.fetch_left, v.acquired_left, v.resumed_left, v.clear_left)

  dispatch_get :
      (l : Option d.Lock) (r : d.Result) (i : ℕ) (w : d.World)
      → (dispatch d l (d.result_get_chunk r i) w).1 ≡ get_elem? (v.chunks r) i
  unfolding dispatch
  dispatch_get none r i w = v.get_value r i w
  dispatch_get (some l) r i w = grind (arith, v.get_value)

  -- What stays of a machine while a chunk is looked for.
  pub record Looks (m n : Machine d) : Type 0 where
    pub same_set : n.result_set ≡ m.result_set
    pub same_done : n.done ≡ m.done
    pub same_result : n.result ≡ m.result
    pub same_streaming : n.is_streaming ≡ m.is_streaming
    pub index_le : n.next_chunk_index ≤ length (v.chunks n.result)

  pub leave_chunk-Looks :
      (m : Machine d)
      → m.next_chunk_index ≤ length (v.chunks m.result)
      → Looks m (leave_chunk m) × (source (leave_chunk m) ≡ source m)
  unfolding leave_chunk drop_chunk
  leave_chunk-Looks m h = elim (Option-cases m.chunk) [
    | inl e ↦ ground arith
    | inr (c, e) ↦ ground (arith, v.destroy_left m.result c m.world)
  ]

  pub next_chunk-Looks :
      (m : Machine d)
      → m.next_chunk_index ≤ length (v.chunks m.result)
      → Looks m (next_chunk m).0
        × (source (next_chunk m).0 ≡ tail (source m))
        × ((next_chunk m).1 ≡ head? (source m))
  unfolding next_chunk
  next_chunk-Looks m h = ground (
    arith,
    dispatch_fetch m.thread_lock m.result m.world,
    dispatch_get m.thread_lock m.result m.next_chunk_index m.world,
    v.count_is m.result m.world,
    v.count_fits m.result,
    head?-drop m.next_chunk_index (v.chunks m.result),
    drop-suc m.next_chunk_index (v.chunks m.result),
    drop_all m.next_chunk_index (v.chunks m.result),
  )
