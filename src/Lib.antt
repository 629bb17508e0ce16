-- ===== src/Lib.antt =====
-- A model of pdo_duckdb, the PDO driver of PHP for DuckDB, with theorems about it.
--
-- The program. PDO calls the driver through two tables of functions: those of a connection
-- (duckdb_driver.c) and those of a statement (duckdb_statement.c). The factory opens a database
-- through DuckDB's instance cache and connects to it; the preparer makes a statement of a connection;
-- execute, fetch and get_col run it and hand out rows; the closers and destructors free what the others
-- made. Calls of DuckDB that may block go through the dispatch of duckdb_swoole.cpp, which takes
-- the connection's lock where the caller is a coroutine.
--
-- The files, with the code that they model, which stands in the root of the repository.
--   Common, Common/*      lists, bytes, C strings (`c_str`), Boolean tests, signed integers.
--   Api                   `Duckdb`: the functions of DuckDB and of Swoole that the driver calls. They
--                         are not code of the repository and are a parameter of what calls them;
--                         `World` is the memory behind them.
--   Trace                 the events of a run (what was made, freed and thrown) and the predicates that
--                         read from a trace what is held: `HoldsResult`, `HoldsChunk` and others.
--   Swoole                duckdb_swoole.cpp: `swoole_run`, and the wrappers `pdo_duckdb_swoole_*` as one
--                         `dispatch`, seen from the caller.
--   Swoole/Coroutines     `swoole_run` once more, as the steps of many callers on one flag.
--   Swoole/Exclusion, Progress   their theorems.
--   Sql, Sql/*            duckdb_driver.c: `zstr_prepare`, `zstr_strip_zerobytes`,
--                         `duckdb_handle_quoter`. Buffers is about sizes, Placeholders about what is
--                         rewritten, Outside about texts that leave no quotation open, Literals about
--                         quoted text.
--   Handle                duckdb_driver.c: `pdo_duckdb_db_handle` is `DbHandle`, PDO's handle with the
--                         world and the trace is `Link`; exec, transactions, errors, attributes and the
--                         closer have the names of the code.
--   Handle/Config, Open   `duckdb_handle_factory`: the loop over its configuration, and one function for
--                         each of its stages.
--   Handle/Settings, Memory, Opening, Transaction, Attributes, Life   their theorems.
--   Statement             duckdb_statement.c and `duckdb_handle_preparer`: `pdo_duckdb_stmt` is `Stmt`,
--                         `pdo_stmt_t` with the world and the trace is `Machine`.
--   Statement/Fetch       `duckdb_stmt_fetch`.
--   Statement/Answers     what DuckDB answers to an execution, and how the execution ends by it.
--   Statement/Prepare, Memory, Life, Chunks, Rows, Reading   `duckdb_handle_preparer`, ownership, a whole
--                         life, the chunks of a result, one fetch, and a whole run of fetches.
--   Types                 the numbers of `duckdb_type`.
--   Value                 `zval` and PHP arrays.
--   Value/Huge, Convert, Column   duckdb_statement.c: `duckdb_val_from_vector`, its cases,
--                         `zval_to_map_key` and `duckdb_stmt_get_col`. `Columns` is what they read
--                         through DuckDB and PHP.
--   Value/Numbers, Lists, Maps, Structs, Total   their theorems.
--   Meta                  duckdb_statement.c: `duckdb_stmt_describe_col` and `duckdb_stmt_get_col_meta`.
--   Params                duckdb_statement.c: `duckdb_stmt_param_hook`, over a parameter `Binder`, which
--                         is what the hook calls of DuckDB.
--   Params/Binding        what an accepted parameter has bound, and under which index.
--   Overrides             pdo_duckdb.c: the handlers in front of `PDOStatement::execute`, `bindValue` and
--                         `bindParam`, over a parameter `Php`.
--   Overrides/Encoding, Execute, Binding   their theorems.
--   Extension             pdo_duckdb.c: the start, the stop and the information page of the module.
--   Extension/Handlers    what PHP's calls do through the handlers that the start has installed.
--   Stubs                 duckdb_stubs.cpp, over a parameter `Classes`.
--   Stubs/Text            what callers read from the buffers.
--   Tests, */Tests        the theorems at concrete inputs.
--
-- Conventions. A pointer that may be NULL is an `Option`. A `zend_string` is the list of its bytes; a
-- `const char *` is read up to its first NUL by `c_str`. Counters of type `idx_t` wrap at 2 ^ 64; a
-- cast to a signed type is `signed32` or `signed64`. A float is its bit pattern. An exception is the
-- event `thrown`, and the result `false` is the failure that PDO sees.
--
-- Fuel. Only `duckdb_val_from_vector` has fuel, for the nesting of a type: `none` means that it ran
-- out, and any fuel above the depth of the type gives a value (`Depth` says what a depth is). `digits`
-- writes at most twenty digits, which a word of 64 bits needs. All other loops are structural.
--
-- Not modelled: the bodies of DuckDB, PHP and Swoole; memory that PHP's own allocator frees at the end
-- of a request (`emalloc`, `efree`); the freeing of logical types; the fairness of the waiting loop, for
-- which the code promises none; duckdb_backtrace_stub.cpp and duckdb_extension_stub.cpp, which hold
-- empty functions and a list of functions for the linker; the tables of methods, which name the
-- functions modelled here in PDO's order.
pub mod Common
pub mod Api
pub mod Swoole
pub mod Sql
pub mod Trace
pub mod Handle
pub mod Types
pub mod Value
pub mod Meta
pub mod Params
pub mod Overrides
pub mod Extension
pub mod Stubs
pub mod Statement
mod Tests
