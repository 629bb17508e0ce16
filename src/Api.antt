-- ===== src/Api.antt =====
-- The functions of DuckDB and of Swoole that the driver calls. They are not code of this repository:
-- a value of `Duckdb` is a parameter of the model. What they do to memory outside the driver is a
-- change of `World`, and a pointer that may be NULL is an `Option`.
use pdo_duckdb_php.Common.{ℕ, Bool, Option, Bytes}

-- `duckdb_state`
pub data DuckdbState : Type 0 where
  success error : DuckdbState

-- What a call returns beside the world: its state, and what it wrote through its last arguments.
pub record Outcome (A : Type 0) : Type 0 where
  pub state : DuckdbState
  pub value : A

pub record Duckdb : Type 1 where
  pub World : Type 0
  pub Database : Type 0
  pub Connection : Type 0
  pub Prepared : Type 0
  -- `duckdb_result`, a struct that the caller owns, and its value before the first execution.
  pub Result : Type 0
  pub no_result : Result
  pub Chunk : Type 0
  pub Config : Type 0
  pub Lock : Type 0
  -- Results, whole or streamed. A failed execution leaves a result that holds the error.
  pub execute_prepared : Option Prepared → World → World × Outcome Result
  pub execute_prepared_streaming : Option Prepared → World → World × Outcome Result
  pub query : Option Connection → Bytes → World → World × Outcome Result
  pub result_error : Result → World → Option Bytes
  pub result_is_streaming : Result → World → Bool
  pub column_count : Result → World → ℕ
  pub rows_changed : Result → World → ℕ
  pub destroy_result : Result → World → World
  -- Chunks of a result.
  pub fetch_chunk : Result → World → World × Option Chunk
  pub result_chunk_count : Result → World → ℕ
  pub result_get_chunk : Result → ℕ → World → World × Option Chunk
  pub data_chunk_get_size : Chunk → ℕ
  pub destroy_data_chunk : Chunk → World → World
  -- Prepared statements. A failed `prepare` may leave a statement that holds the error.
  pub prepare : Option Connection → Bytes → World → World × Outcome (Option Prepared)
  pub prepare_error : Prepared → World → Option Bytes
  pub destroy_prepare : Prepared → World → World
  -- Databases and connections.
  pub create_config : World → World × Option Config
  pub set_config : Option Config → Bytes → Bytes → World → World
  pub destroy_config : Config → World → World
  pub get_or_create_from_cache :
      Option Bytes → Option Config → World → World × Outcome (Option Database × Option Bytes)
  -- `duckdb_free` of the text of an error.
  pub free_error : Bytes → World → World
  pub connect : Option Database → World → World × Outcome (Option Connection)
  pub interrupt : Connection → World → World
  pub disconnect : Connection → World → World
  pub close : Option Database → World → World
  pub has_active_transaction : Option Connection → World → Bool
  pub library_version : Bytes
  -- Swoole: whether its symbols resolved, whether the caller runs in a coroutine, the loop that waits
  -- for the connection's flag, what other coroutines do until `async` resumes the caller, and the
  -- flag's release.
  pub swoole_loaded : Bool
  pub swoole_is_in : World → Bool
  pub async_loaded : Bool
  pub lock_new : World → World × Option Lock
  pub lock_free : Lock → World → World
  pub lock_acquired : Lock → World → World
  pub async_resumed : World → World
  pub lock_clear : Lock → World → World
