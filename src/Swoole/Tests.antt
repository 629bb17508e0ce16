-- ===== src/Swoole/Tests.antt =====
-- Two coroutines on one connection: the first holds the flag, in the middle of its call, and the second
-- waits.
use pdo_duckdb_php.Common.{ℕ, true, false, List, [], ◌∷◌, ◌≡◌, refl}
use pdo_duckdb_php.Swoole.Coroutines.{
  update, all_take, Calls, idle, waiting, calling, enter, acquire, work, clear, System, pick, here,
  later, initial, Reachable, serial,
}
use pdo_duckdb_php.Swoole.Exclusion.{mutual_exclusion, calls_serial}
use pdo_duckdb_php.Swoole.Progress.{Served, waiting-Served}

-- An action writes a number.
abbrev writes : Calls
writes = record { World = List ℕ; Action = ℕ; act = λ a w. a ∷ w }

abbrev both_wait : System writes
both_wait = record {
  shared = (initial writes []).shared;
  pc = update (update (λ i. idle) 0 (waiting (1 ∷ 2 ∷ []))) 1 (waiting (3 ∷ []));
}

abbrev contended : System writes
contended = record {
  shared = record { busy = true; world = 1 ∷ []; history = (1 ∷ 2 ∷ []) ∷ [] };
  pc = update (update both_wait.pc 0 (calling (1 ∷ 2 ∷ []))) 0 (calling (2 ∷ []));
}

abbrev over : System writes
over = record {
  shared = record { busy = false; world = 2 ∷ 1 ∷ []; history = (1 ∷ 2 ∷ []) ∷ [] };
  pc = update (update contended.pc 0 (calling [])) 0 idle;
}

both_wait_reached : Reachable writes all_take [] both_wait
both_wait_reached =
    later (later here (pick 0 (enter (1 ∷ 2 ∷ []) refl))) (pick 1 (enter (3 ∷ []) refl))

contended_reached : Reachable writes all_take [] contended
contended_reached = later (later both_wait_reached (pick 0 (acquire refl))) (pick 0 work)

over_reached : Reachable writes all_take [] over
over_reached = later (later contended_reached (pick 0 work)) (pick 0 clear)

mutual_exclusion_example : ◌≡◌ {A = ℕ} 0 0
mutual_exclusion_example = mutual_exclusion writes [] contended contended_reached 0 0 refl refl

calls_serial_example : over.world ≡ serial writes over.history []
calls_serial_example = calls_serial writes [] over over_reached refl

waiting-Served_example : (t : System writes) × Served writes [] contended 1 (3 ∷ []) t
waiting-Served_example = waiting-Served writes [] contended 1 (3 ∷ []) contended_reached refl
