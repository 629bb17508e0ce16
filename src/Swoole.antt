-- ===== src/Swoole.antt =====
-- duckdb_swoole.cpp: a call of DuckDB, made at once or dispatched under the connection's lock.
pub mod Coroutines
pub mod Exclusion
pub mod Progress
mod Tests
use pdo_duckdb_php.Common.{not, ◌||◌, Option, none, some, if◌then◌else◌}
use pdo_duckdb_php.Api.{Duckdb}

module _ (d : Duckdb) where
  open d use {World}

  -- `swoole_run`; the flag is held from the end of the waiting loop to the release.
  unfoldable pub swoole_run : {A : Type 0} → d.Lock → (World → World × A) → World → World × A
  swoole_run lock fn w =
      if not d.swoole_loaded || not (d.swoole_is_in w)
      then fn w
      else (let (w', a) = fn (d.lock_acquired lock w) in
          (d.lock_clear lock (if d.async_loaded then d.async_resumed w' else w'), a))

  -- The call itself where the connection has no lock, as each caller branches on `thread_lock`.
  unfoldable pub dispatch : {A : Type 0} → Option d.Lock → (World → World × A) → World → World × A
  unfolding swoole_run
  dispatch none fn w = fn w
  dispatch (some lock) fn w = swoole_run lock fn w

  -- `pdo_duckdb_thread_lock_new`: no lock where Swoole is not loaded.
  unfoldable pub thread_lock_new : World → World × Option d.Lock
  thread_lock_new w = if not d.swoole_loaded then (w, none) else d.lock_new w
