-- ===== src/Swoole/Coroutines.antt =====
-- duckdb_swoole.cpp: the callers of `swoole_run` on one connection, interleaved in any order. A caller
-- makes one access to shared memory at a time; the call of DuckDB is a list of actions, between which
-- others may run.
use pdo_duckdb_php.Common.{ℕ, Bool, true, false, ◌&&◌, List, [], ◌∷◌, ◌≡◌, ◌==◌, if◌then◌else◌}

-- The family with another value at one index.
abbrev pub update {ℓ} : {A : Type ℓ} → (ℕ → A) → ℕ → A → ℕ → A
update f i a j = if i == j then a else f j

-- What calls of DuckDB do, bit by bit.
pub record Calls : Type 1 where
  pub World : Type 0
  pub Action : Type 0
  pub act : Action → World → World

-- `swoole_coroutine_is_in != NULL && swoole_coroutine_is_in() != 0`
abbrev pub takes_lock : Bool → Bool → Bool
takes_lock loaded is_in = loaded && is_in

-- All callers run in coroutines of a loaded Swoole.
abbrev pub all_take : ℕ → Bool
all_take i = takes_lock true true

module _ (k : Calls) where
  open k use {World, Action}

  abbrev pub Body : Type 0
  Body = List Action

  -- The actions of a call, one behind the other.
  abbrev pub acts : Body → World → World
  acts [] w = w
  acts (a ∷ rest) w = acts rest (k.act a w)

  -- Where a caller stands in `swoole_run`.
  pub data Pc : Type 0 where
    idle : Pc
    -- `fn()` without the flag, as far as it is left.
    direct : Body → Pc
    -- Before `test_and_set`.
    waiting : Body → Pc
    -- `fn` under the flag, as far as it is left; behind it stands `clear`.
    calling : Body → Pc

  -- The flag and what is behind the calls. `history` is kept for the theorems: the calls that got the
  -- flag, the last one first.
  pub record Shared : Type 0 where
    pub busy : Bool
    pub world : World
    pub history : List Body

  -- One step of a caller; `takes` says whether its test sent it to the lock.
  pub data Move (takes : Bool) (m : Shared) : Pc → Shared → Pc → Type 0 where
    enter : (b : Body) → takes ≡ true → Move takes m idle m (waiting b)
    enter_direct : (b : Body) → takes ≡ false → Move takes m idle m (direct b)
    work_direct :
        {a : Action} {rest : Body}
        → Move takes m (direct (a ∷ rest)) (record m { world = k.act a m.world }) (direct rest)
    return_direct : Move takes m (direct []) m idle
    -- `test_and_set` finds the flag set: the caller sleeps or yields, and tries again.
    spin : {b : Body} → m.busy ≡ true → Move takes m (waiting b) m (waiting b)
    -- It finds the flag clear, and has set it.
    acquire :
        {b : Body}
        → m.busy ≡ false
        → Move takes m (waiting b) (record m { busy = true; history = b ∷ m.history }) (calling b)
    work :
        {a : Action} {rest : Body}
        → Move takes m (calling (a ∷ rest)) (record m { world = k.act a m.world }) (calling rest)
    clear : Move takes m (calling []) (record m { busy = false }) idle

  pub record System : Type 0 where
    pub shared : Shared
    pub open shared use *
    pub pc : ℕ → Pc

  pub data Step (takes : ℕ → Bool) (s : System) : System → Type 0 where
    pick :
        (i : ℕ) {m : Shared} {p : Pc}
        → Move (takes i) s.shared (s.pc i) m p
        → Step takes s (record { shared = m; pc = update s.pc i p })

  pub data Steps (takes : ℕ → Bool) (s : System) : System → Type 0 where
    here : Steps takes s s
    later : {t u : System} → Steps takes s t → Step takes t u → Steps takes s u

  -- `pdo_duckdb_thread_lock_new`: the flag is clear, and no caller is under way.
  abbrev pub initial : World → System
  initial w = record { shared = record { busy = false; world = w; history = [] }; pc = λ i. idle }

  abbrev pub Reachable : (ℕ → Bool) → World → System → Type 0
  Reachable takes w s = Steps takes (initial w) s

  -- The calls of a history, each as a whole.
  abbrev pub serial : List Body → World → World
  serial [] w = w
  serial (b ∷ earlier) w = acts b (serial earlier w)

  -- Between a successful `test_and_set` and `clear`.
  abbrev pub is_calling : Pc → Bool
  is_calling (calling b) = true
  is_calling _ = false
