-- ===== src/Swoole/Progress.antt =====
-- duckdb_swoole.cpp: a caller that waits for the flag of a connection.
use pdo_duckdb_php.Common.{
  ℕ, true, false, [], ◌∷◌, ◌≡◌, ◌≢◌, refl, sym, ap, ◌∙◌, arith, Bool-cases, inl, inr,
}
use mathlib.Core.Path.{subst}
use pdo_duckdb_php.Swoole.Coroutines.{
  update, all_take, Calls, Body, acts, Pc, idle, waiting, calling, Shared, Move, acquire, work,
  clear, System, Step, pick, Steps, here, later, Reachable, serial, is_calling,
}
use pdo_duckdb_php.Swoole.Exclusion.{Reachable-Inv, rest_of}

update_self {ℓ} : {A : Type ℓ} (f : ℕ → A) (i : ℕ) (a : A) → update f i a i ≡ a
update_self f i a = ground arith

update_other {ℓ} : {A : Type ℓ} (f : ℕ → A) (i j : ℕ) (a : A) → j ≢ i → update f i a j ≡ f j
update_other f i j a n = ground arith

module _ (k : Calls) where
  Steps-trans :
      {s t u : System k} → Steps k all_take s t → Steps k all_take t u → Steps k all_take s u
  Steps-trans r here = r
  Steps-trans r (later r' st) = later (Steps-trans r r') st

  -- The step of a caller of which it is known where it stands.
  Step-pc :
      (s : System k) (i : ℕ) {p p' : Pc k} {m : Shared k}
      → s.pc i ≡ p
      → Move k true s.shared p m p'
      → Step k all_take s (record { shared = m; pc = update s.pc i p' })
  Step-pc s i {p} {p'} {m} e mv =
      pick i (subst (λ (q : Pc k). Move k true s.shared q m p') (sym e) mv)

  -- Caller `i` has made the rest of its call and cleared the flag; nobody else has moved.
  record Finished (s : System k) (i : ℕ) (rest : Body k) (t : System k) : Type 0 where
    steps : Steps k all_take s t
    out : t.pc i ≡ idle
    free : t.busy ≡ false
    made : t.world ≡ acts k rest s.world
    same : t.history ≡ s.history
    others : (j : ℕ) → j ≢ i → t.pc j ≡ s.pc j

  finish_call :
      (rest : Body k) (s : System k) (i : ℕ)
      → s.pc i ≡ calling rest
      → (t : System k) × Finished s i rest t
  finish_call [] s i e = (
    record { shared = record (s.shared) { busy = false }; pc = update s.pc i idle },
    record {
      steps = later here (Step-pc s i e clear);
      out = update_self s.pc i idle;
      free = refl;
      made = refl;
      same = refl;
      others = λ j. update_other s.pc i j idle;
    },
  )
  finish_call (a ∷ rest) s i e =
      let s' : System k = record {
        shared = record (s.shared) { world = k.act a s.world };
        pc = update s.pc i (calling rest);
      } in
      let (t, f) = finish_call rest s' i (update_self s.pc i (calling rest)) in
      (
        t,
        record {
          steps = Steps-trans (later here (Step-pc s i e work)) f.steps;
          out = f.out;
          free = f.free;
          made = f.made;
          same = f.same;
          others = λ j n. f.others j n ∙ update_other s.pc i j (calling rest) n;
        },
      )

  -- Caller `i` has made the call `b`, behind all calls of the history.
  pub record Served (w : k.World) (s : System k) (i : ℕ) (b : Body k) (t : System k) : Type 0 where
    pub steps : Steps k all_take s t
    pub out : t.pc i ≡ idle
    pub behind : t.history ≡ b ∷ s.history
    pub made : t.world ≡ acts k b (serial k s.history w)

  serve_free :
      (w : k.World) (s : System k) (i : ℕ) (b : Body k)
      → s.pc i ≡ waiting b
      → s.busy ≡ false
      → s.world ≡ serial k s.history w
      → (t : System k) × Served w s i b t
  serve_free w s i b e free whole =
      let s' : System k = record {
        shared = record (s.shared) { busy = true; history = b ∷ s.history };
        pc = update s.pc i (calling b);
      } in
      let (t, f) = finish_call b s' i (update_self s.pc i (calling b)) in
      (
        t,
        record {
          steps = Steps-trans (later here (Step-pc s i e (acquire free))) f.steps;
          out = f.out;
          behind = f.same;
          made = f.made ∙ ap (acts k b) whole;
        },
      )

  calling_rest : (p : Pc k) → is_calling k p ≡ true → p ≡ calling (rest_of k p)
  calling_rest p e = ground arith

  waiting_ne_calling :
      (s : System k) (i j : ℕ) (b : Body k)
      → s.pc i ≡ waiting b
      → is_calling k (s.pc j) ≡ true
      → i ≢ j
  waiting_ne_calling s i j b e c q = let c' : is_calling k (s.pc i) ≡ true = rw q c in ground arith

  -- Where all callers of a connection run in coroutines, one that waits for the flag is not locked out:
  -- from every reachable state there is a run in which the holder, if there is one, makes the rest of its
  -- call, and the waiting caller then makes its own as a whole and returns.
  pub waiting-Served :
      (w : k.World) (s : System k) (i : ℕ) (b : Body k)
      → Reachable k all_take w s
      → s.pc i ≡ waiting b
      → (t : System k) × Served w s i b t
  waiting-Served w s i b r e = elim (Bool-cases s.busy) [
    | inr free ↦ serve_free w s i b e free ((Reachable-Inv k r).complete free)
    | inl busy ↦
        let inv = Reachable-Inv k r in
        let (j, c) = inv.holder busy in
        let (t, f) = finish_call (rest_of k (s.pc j)) s j (calling_rest (s.pc j) c) in
        let (u, g) =
          serve_free w t i b (f.others i (waiting_ne_calling s i j b e c) ∙ e) f.free
            (f.made ∙ inv.completes j c ∙ ap (λ h. serial k h w) (sym f.same)) in
        (
          u,
          record {
            steps = Steps-trans f.steps g.steps;
            out = g.out;
            behind = g.behind ∙ ap (λ h. b ∷ h) f.same;
            made = g.made ∙ ap (λ h. acts k b (serial k h w)) f.same;
          },
        )
  ]
