-- ===== src/Trace.antt =====
-- What the driver has made, freed and thrown, newest first. DuckDB's objects have to be freed by the
-- driver, each once; the predicates below say which one a trace leaves alive, and hold of no trace
-- that frees an object twice, frees another one, or makes one over a living one.
use pdo_duckdb_php.Common.{Option, none, some, List, [], ◌∷◌, ◌≡◌, Bytes}
use pdo_duckdb_php.Api.{Duckdb}

pub data Event (d : Duckdb) : Type 0 where
  made_result destroyed_result : d.Result → Event d
  made_chunk destroyed_chunk : d.Chunk → Event d
  made_prepared destroyed_prepared : d.Prepared → Event d
  made_config destroyed_config : d.Config → Event d
  opened closed : d.Database → Event d
  connected disconnected : d.Connection → Event d
  made_lock freed_lock : d.Lock → Event d
  made_error freed_error : Bytes → Event d
  thrown : Bytes → Event d

module _ {d : Duckdb} where
  abbrev pub HoldsResult : List (Event d) → Option d.Result → Type 0
  HoldsResult [] o = o ≡ none
  HoldsResult (made_result r ∷ t) o = HoldsResult t none × (o ≡ some r)
  HoldsResult (destroyed_result r ∷ t) o = HoldsResult t (some r) × (o ≡ none)
  HoldsResult (_ ∷ t) o = HoldsResult t o

  abbrev pub HoldsChunk : List (Event d) → Option d.Chunk → Type 0
  HoldsChunk [] o = o ≡ none
  HoldsChunk (made_chunk c ∷ t) o = HoldsChunk t none × (o ≡ some c)
  HoldsChunk (destroyed_chunk c ∷ t) o = HoldsChunk t (some c) × (o ≡ none)
  HoldsChunk (_ ∷ t) o = HoldsChunk t o

  abbrev pub HoldsPrepared : List (Event d) → Option d.Prepared → Type 0
  HoldsPrepared [] o = o ≡ none
  HoldsPrepared (made_prepared p ∷ t) o = HoldsPrepared t none × (o ≡ some p)
  HoldsPrepared (destroyed_prepared p ∷ t) o = HoldsPrepared t (some p) × (o ≡ none)
  HoldsPrepared (_ ∷ t) o = HoldsPrepared t o

  abbrev pub HoldsDatabase : List (Event d) → Option d.Database → Type 0
  HoldsDatabase [] o = o ≡ none
  HoldsDatabase (opened b ∷ t) o = HoldsDatabase t none × (o ≡ some b)
  HoldsDatabase (closed b ∷ t) o = HoldsDatabase t (some b) × (o ≡ none)
  HoldsDatabase (_ ∷ t) o = HoldsDatabase t o

  abbrev pub HoldsConnection : List (Event d) → Option d.Connection → Type 0
  HoldsConnection [] o = o ≡ none
  HoldsConnection (connected c ∷ t) o = HoldsConnection t none × (o ≡ some c)
  HoldsConnection (disconnected c ∷ t) o = HoldsConnection t (some c) × (o ≡ none)
  HoldsConnection (_ ∷ t) o = HoldsConnection t o

  abbrev pub HoldsConfig : List (Event d) → Option d.Config → Type 0
  HoldsConfig [] o = o ≡ none
  HoldsConfig (made_config c ∷ t) o = HoldsConfig t none × (o ≡ some c)
  HoldsConfig (destroyed_config c ∷ t) o = HoldsConfig t (some c) × (o ≡ none)
  HoldsConfig (_ ∷ t) o = HoldsConfig t o

  abbrev pub HoldsLock : List (Event d) → Option d.Lock → Type 0
  HoldsLock [] o = o ≡ none
  HoldsLock (made_lock l ∷ t) o = HoldsLock t none × (o ≡ some l)
  HoldsLock (freed_lock l ∷ t) o = HoldsLock t (some l) × (o ≡ none)
  HoldsLock (_ ∷ t) o = HoldsLock t o

  abbrev pub HoldsError : List (Event d) → Option Bytes → Type 0
  HoldsError [] o = o ≡ none
  HoldsError (made_error e ∷ t) o = HoldsError t none × (o ≡ some e)
  HoldsError (freed_error e ∷ t) o = HoldsError t (some e) × (o ≡ none)
  HoldsError (_ ∷ t) o = HoldsError t o

  -- The messages of the exceptions, newest first.
  abbrev pub messages : List (Event d) → List Bytes
  messages [] = []
  messages (thrown message ∷ t) = message ∷ messages t
  messages (_ ∷ t) = messages t
