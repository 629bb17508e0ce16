-- ===== src/Tests.antt =====
-- A small database in place of DuckDB, and the theorems about connections and statements at it. The
-- world is the list of the chunks that a streamed result still has; a chunk is one less than its size;
-- result 0 is materialised, result 1 streamed, result 2 holds an error.
mod Mock
mod Runs
mod Configured
