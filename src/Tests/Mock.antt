-- ===== src/Tests/Mock.antt =====
-- The small database.
use pdo_duckdb_php.Common.{
  ℕ, suc, zero, ◌<◌, ◌^◌, true, false, List, [], ◌∷◌, Option, none, some, refl, arith, Bytes, codes,
  length, get_elem?, head?, tail, ◌==◌, if◌then◌else◌, bytes_eq, leb,
}
use pdo_duckdb_php.Api.{Duckdb, success, error, Outcome}
use pdo_duckdb_php.Handle.{DbHandle}
use pdo_duckdb_php.Statement.Chunks.{Delivers}

abbrev World : Type 0
World = List ℕ

abbrev materialised : ℕ → List ℕ
materialised zero = 1 ∷ 0 ∷ []
materialised (suc n) = []

-- Result 0 for a statement, an error for none.
abbrev run_whole : Option ℕ → World → World × Outcome ℕ
run_whole none w = (w, record { state = error; value = 2 })
run_whole (some p) w = (w, record { state = success; value = 0 })

abbrev run_streaming : Option ℕ → World → World × Outcome ℕ
run_streaming none w = (w, record { state = error; value = 2 })
run_streaming (some p) w = (0 ∷ 1 ∷ [], record { state = success; value = 1 })

-- Every text but "COMMIT" is accepted.
abbrev run_text : Option ℕ → Bytes → World → World × Outcome ℕ
run_text c sql w = (
  w,
  record {
    state = if bytes_eq sql (codes "COMMIT") then error else success;
    value = if bytes_eq sql (codes "COMMIT") then 2 else 0;
  },
)

abbrev error_of : ℕ → World → Option Bytes
error_of r w = if r == 2 then some (codes "refused") else none

abbrev pub mock : Duckdb
mock = record {
  World = World;
  Database = ℕ;
  Connection = ℕ;
  Prepared = ℕ;
  Result = ℕ;
  no_result = 9;
  Chunk = ℕ;
  Config = ℕ;
  Lock = ℕ;
  execute_prepared = run_whole;
  execute_prepared_streaming = run_streaming;
  query = run_text;
  result_error = error_of;
  result_is_streaming = λ r w. r == 1;
  column_count = λ r w. 1;
  rows_changed = λ r w. 3;
  destroy_result = λ r w. w;
  fetch_chunk = λ r w. (tail w, head? w);
  result_chunk_count = λ r w. length (materialised r);
  result_get_chunk = λ r i w. (w, get_elem? (materialised r) i);
  data_chunk_get_size = λ c. if leb 100 c then 1 else suc c;
  destroy_data_chunk = λ c w. w;
  prepare = λ c sql w. (w, record { state = success; value = some 5 });
  prepare_error = λ p w. none;
  destroy_prepare = λ p w. w;
  create_config = λ w. (w, some 7);
  set_config = λ c k v w. w;
  destroy_config = λ c w. w;
  get_or_create_from_cache = λ p c w. (w, record { state = success; value = (some 3, none) });
  free_error = λ e w. w;
  connect = λ b w. (w, record { state = success; value = some 4 });
  interrupt = λ c w. w;
  disconnect = λ c w. w;
  close = λ b w. w;
  has_active_transaction = λ c w. false;
  library_version = codes "v2";
  swoole_loaded = true;
  swoole_is_in = λ w. true;
  async_loaded = true;
  lock_new = λ w. (w, some 6);
  lock_free = λ l w. w;
  lock_acquired = λ l w. w;
  async_resumed = λ w. w;
  lock_clear = λ l w. w;
}

pub size_pos : (c : ℕ) → 0 < mock.data_chunk_get_size c
size_pos c = ground arith

pub size_small : (c : ℕ) → mock.data_chunk_get_size c < 2 ^ 64
size_small c = ground arith

pub count_small : (r : ℕ) → length (materialised r) < 2 ^ 64
count_small zero = omega arith
count_small (suc r) = omega arith

abbrev pub delivers : Delivers mock
delivers = record {
  left = λ r w. w;
  chunks = materialised;
  fetch_value = λ r w. refl;
  fetch_left = λ r w. refl;
  count_is = λ r w. refl;
  get_value = λ r i w. refl;
  destroy_left = λ r c w. refl;
  acquired_left = λ r l w. refl;
  resumed_left = λ r w. refl;
  clear_left = λ r l w. refl;
  not_empty = size_pos;
  size_fits = size_small;
  count_fits = count_small;
}

abbrev pub handle : DbHandle mock
handle = record {
  db = some 3;
  conn = some 4;
  attr_flags = 0;
  error_msg = [];
  auto_commit = false;
  unbuffered = true;
  thread_lock = some 6;
}
