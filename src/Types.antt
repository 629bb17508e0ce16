-- ===== src/Types.antt =====
-- The type ids of DuckDB that the driver names. `unlisted` stands for every other number, among them
-- the -1 that forces the default branch.
pub data TypeId : Type 0 where
  invalid any boolean tinyint smallint integer bigint utinyint usmallint uinteger ubigint : TypeId
  hugeint uhugeint float double varchar blob decimal timestamp timestamp_s timestamp_ms : TypeId
  timestamp_ns timestamp_tz timestamp_tz_ns date time time_tz time_ns interval uuid enum : TypeId
  list struct map union array variant bit geometry bignum sqlnull unlisted : TypeId
