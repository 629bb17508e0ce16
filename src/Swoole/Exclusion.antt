-- ===== src/Swoole/Exclusion.antt =====
-- duckdb_swoole.cpp: who holds the flag of a connection, and the order of the calls under it.
use pdo_duckdb_php.Common.{ℕ, Bool, true, false, [], ◌≡◌, refl, arith}
use pdo_duckdb_php.Swoole.Coroutines.{
  update, all_take, Calls, Body, acts, Pc, direct, calling, Shared, Move, enter_direct, acquire,
  work, clear, System, Step, pick, here, later, initial, Reachable, serial, is_calling,
}

module _ (k : Calls) where
  -- What is left of the call under the flag.
  abbrev pub rest_of : Pc k → Body k
  rest_of (calling b) = b
  rest_of _ = []

  abbrev pub is_direct : Pc k → Bool
  is_direct (direct b) = true
  is_direct _ = false

  pub record Inv (w : k.World) (m : Shared k) (pc : ℕ → Pc k) : Type 0 where
    pub exclusive : (i j : ℕ) → is_calling k (pc i) ≡ true → is_calling k (pc j) ≡ true → i ≡ j
    pub held : (i : ℕ) → is_calling k (pc i) ≡ true → m.busy ≡ true
    pub holder : m.busy ≡ true → (i : ℕ) × (is_calling k (pc i) ≡ true)
    -- What is left of the call under the flag completes the history.
    pub completes :
        (i : ℕ)
        → is_calling k (pc i) ≡ true
        → acts k (rest_of (pc i)) m.world ≡ serial k m.history w
    pub complete : m.busy ≡ false → m.world ≡ serial k m.history w
    pub no_direct : (i : ℕ) → is_direct (pc i) ≡ false

  module _ {w : k.World} {m : Shared k} {pc : ℕ → Pc k} (inv : Inv w m pc) (i : ℕ) where
    open inv use {exclusive, held, holder, completes, complete, no_direct}

    Move-exclusive :
        {p p' : Pc k} {m' : Shared k}
        → Move k true m p m' p'
        → pc i ≡ p
        → (a b : ℕ) → is_calling k (update pc i p' a) ≡ true
        → is_calling k (update pc i p' b) ≡ true
        → a ≡ b
    Move-exclusive (acquire g) e a b x y = ground (arith, held a, held b)
    Move-exclusive mv e a b x y = ground (arith, exclusive a b, exclusive i a, exclusive i b)

    Move-held :
        {p p' : Pc k} {m' : Shared k}
        → Move k true m p m' p'
        → pc i ≡ p
        → (a : ℕ) → is_calling k (update pc i p' a) ≡ true
        → m'.busy ≡ true
    Move-held clear e a x = ground (arith, exclusive i a)
    Move-held mv e a x = ground (arith, held a, held i)

    Move-holder :
        {p p' : Pc k} {m' : Shared k}
        → Move k true m p m' p'
        → pc i ≡ p
        → m'.busy ≡ true
        → (a : ℕ) × (is_calling k (update pc i p' a) ≡ true)
    Move-holder (acquire g) e x = (i, ground arith)
    Move-holder work e x = (i, ground arith)
    Move-holder mv e x = let (a, c) = holder (ground arith) in (a, ground arith)

    Move-completes :
        {p p' : Pc k} {m' : Shared k}
        → Move k true m p m' p'
        → pc i ≡ p
        → (a : ℕ) → is_calling k (update pc i p' a) ≡ true
        → acts k (rest_of (update pc i p' a)) m'.world ≡ serial k m'.history w
    Move-completes (acquire g) e a x = ground (arith, held a, complete g)
    Move-completes work e a x = ground (arith, exclusive i a, completes i)
    Move-completes mv e a x = ground (arith, completes a, no_direct i)

    Move-complete :
        {p p' : Pc k} {m' : Shared k}
        → Move k true m p m' p'
        → pc i ≡ p
        → m'.busy ≡ false
        → m'.world ≡ serial k m'.history w
    Move-complete work e x = ground (arith, held i)
    Move-complete clear e x = ground (arith, completes i)
    Move-complete mv e x = ground (arith, complete, no_direct i)

    Move-no_direct :
        {p p' : Pc k} {m' : Shared k}
        → Move k true m p m' p'
        → pc i ≡ p
        → (a : ℕ) → is_direct (update pc i p' a) ≡ false
    Move-no_direct (enter_direct b g) e a = cc
    Move-no_direct mv e a = ground (arith, no_direct a, no_direct i)

    pub Move-Inv :
        {p' : Pc k} {m' : Shared k} → Move k true m (pc i) m' p' → Inv w m' (update pc i p')
    Move-Inv mv = record {
      exclusive = Move-exclusive mv refl;
      held = Move-held mv refl;
      holder = Move-holder mv refl;
      completes = Move-completes mv refl;
      complete = Move-complete mv refl;
      no_direct = Move-no_direct mv refl;
    }

  initial-Inv : (w : k.World) → Inv w (initial k w).shared (initial k w).pc
  initial-Inv w = record {
    exclusive = λ i j x y. cc;
    held = λ i x. cc;
    holder = λ x. cc;
    completes = λ i x. cc;
    complete = λ x. refl;
    no_direct = λ i. refl;
  }

  Step-Inv :
      {w : k.World} {s t : System k}
      → Step k all_take s t
      → Inv w s.shared s.pc
      → Inv w t.shared t.pc
  Step-Inv (pick i mv) inv = Move-Inv inv i mv

  pub Reachable-Inv : {w : k.World} {s : System k} → Reachable k all_take w s → Inv w s.shared s.pc
  Reachable-Inv {w} here = initial-Inv w
  Reachable-Inv (later r st) = Step-Inv st (Reachable-Inv r)

  -- Where all callers of a connection run in coroutines, no two of them are between `test_and_set` and
  -- `clear` at once, however they are interleaved.
  pub mutual_exclusion :
      (w : k.World) (s : System k)
      → Reachable k all_take w s
      → (i j : ℕ) → is_calling k (s.pc i) ≡ true
      → is_calling k (s.pc j) ≡ true
      → i ≡ j
  mutual_exclusion w s r = (Reachable-Inv r).exclusive

  -- Where all callers of a connection run in coroutines and nobody holds the flag, DuckDB has seen the
  -- calls one behind the other, each as a whole, in the order in which they got the flag.
  pub calls_serial :
      (w : k.World) (s : System k)
      → Reachable k all_take w s
      → s.busy ≡ false
      → s.world ≡ serial k s.history w
  calls_serial w s r = (Reachable-Inv r).complete
