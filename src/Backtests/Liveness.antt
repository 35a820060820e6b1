-- ===== src/Backtests/Liveness.antt =====
-- The queue of backtests moves: the oldest queued backtest starts when a child is free to run it.
use mathlib.Core.List.{Memᴰ}
use mathlib.Core.Option.{none-ne-some}
use atrade.Prelude.{
  ℕ, zero, suc, ◌+◌, ◌<◌, ◌≤◌, List, [], ◌∷◌, ◌≡◌, refl, Bool, true, false, ◌==◌, ◌||◌, ltb, Option,
  some, arith, bind-eq-some, of_some, Bool-cases, inl, inr,
}
use atrade.Prelude.Tables.{IsOrdered, IsOrdered-mem}
use atrade.Backtests.{BacktestStatus, BacktestRow, is_queued}
use atrade.Backtests.Store.{update_where, start_row, oldest_queued, start_next_queued_backtest}
use atrade.Backtests.Runner.{
  BacktestLimits, read_backtest_limits, Runner, add_child, start_child, start_children,
  start_queued_backtests,
}
use atrade.Backtests.Starts.{start_children-keeps}
use atrade.Backtests.Lifecycle.{is_child, row_id}

queued_status : (s : BacktestStatus) → is_queued s ≡ true → s ≡ BacktestStatus.queued
queued_status BacktestStatus.queued h = refl
queued_status BacktestStatus.running h = absurd (ground arith)
queued_status BacktestStatus.finished h = absurd (ground arith)
queued_status BacktestStatus.failed h = absurd (ground arith)
queued_status BacktestStatus.timed_out h = absurd (ground arith)
queued_status BacktestStatus.cancelled h = absurd (ground arith)

module _ {V : Type 0} where
  start_child-children :
      (concurrency id : ℕ) (now : ℕ → ℕ) (r s : Runner V)
      → start_child concurrency now r ≡ some s
      → is_child id r.children ≡ true
      → is_child id s.children ≡ true
  unfolding start_child
  start_child-children concurrency id now r s e h =
      elim (Bool-cases (ltb r.running_count concurrency)) [
        | inr full ↦ absurd (none-ne-some s (rw full at e))
        | inl free ↦
            let (started, e1, e2) =
              bind-eq-some (start_next_queued_backtest (now r.running_count) r.tables)
                (λ started. some (add_child r started)) s (rw free at e) in
            of_some (λ (t : Runner V). is_child id t.children ≡ true) e2
              (or_true (started.1 == id) (is_child id r.children) h)
      ]
    where
      or_true : (a b : Bool) → b ≡ true → (a || b) ≡ true
      or_true true b k = refl
      or_true false b k = k

  -- The round that starts the oldest queued backtest.
  start_oldest : ℕ → (ℕ → ℕ) → Runner V → Runner V
  start_oldest id now r =
      add_child r
        (update_where (λ row. row.id == id) (start_row (now r.running_count)) r.tables, id)

  start_child-oldest :
      (concurrency id : ℕ) (now : ℕ → ℕ) (r : Runner V)
      → r.running_count < concurrency
      → oldest_queued r.tables.rows ≡ some id
      → start_child concurrency now r ≡ some (start_oldest id now r)
  unfolding start_child start_next_queued_backtest start_oldest
  start_child-oldest concurrency id now r free q =
      let less : ltb r.running_count concurrency ≡ true = ground arith in rw (less, q) refl

  start_children-oldest :
      (fuel concurrency id : ℕ) (now : ℕ → ℕ) (r : Runner V)
      → r.running_count < concurrency
      → oldest_queued r.tables.rows ≡ some id
      → is_child id (start_children (suc fuel) concurrency now r).children ≡ true
  unfolding start_children start_oldest
  start_children-oldest fuel concurrency id now r free q =
      rw (start_child-oldest concurrency id now r free q, start_children)
        (start_children-keeps (λ s. is_child id s.children ≡ true) concurrency now
          (λ s t e h. start_child-children concurrency id now s t e h) fuel (start_oldest id now r)
          first)
    where
      first : is_child id (start_oldest id now r).children ≡ true
      first = let same : (id == id) ≡ true = ground arith in rw same refl

  start_queued_backtests-first :
      (saved : Option BacktestLimits) (id : ℕ) (now : ℕ → ℕ) (r : Runner V)
      → r.running_count < (read_backtest_limits saved).concurrency
      → oldest_queued r.tables.rows ≡ some id
      → is_child id (start_queued_backtests saved now r).children ≡ true
  unfolding start_queued_backtests
  start_queued_backtests-first saved id now r free q =
      go (read_backtest_limits saved).concurrency free
    where
      go : (n : ℕ) → r.running_count < n → is_child id (start_children n n now r).children ≡ true
      go zero free = absurd (omega arith)
      go (suc n) free = start_children-oldest n (suc n) id now r free q

  -- Each queued backtest has an id that is at least `id`.
  abbrev pub IsOldest : ℕ → List (BacktestRow V) → Type 0
  IsOldest id rows =
      (row : BacktestRow V) → Memᴰ row rows → row.status ≡ BacktestStatus.queued → id ≤ row.id

  oldest_queued-IsOldest :
      (row : BacktestRow V) (lo : ℕ) (rows : List (BacktestRow V)) (hi : ℕ)
      → IsOrdered row_id lo rows hi
      → Memᴰ row rows
      → row.status ≡ BacktestStatus.queued
      → IsOldest row.id rows
      → oldest_queued rows ≡ some row.id
  unfolding oldest_queued
  oldest_queued-IsOldest row lo [] hi ordered m q oldest = elim m [ ]
  oldest_queued-IsOldest row lo (x ∷ rows) hi ordered (Memᴰ.head e) q oldest = rw (← e, q) refl
  oldest_queued-IsOldest row lo (x ∷ rows) hi ordered (Memᴰ.tail m) q oldest =
      let above = IsOrdered-mem row_id row (x.id + 1) rows hi ordered.1 m in
      elim (Bool-cases (is_queued x.status)) [
        | inl queued ↦
            absurd (omega (arith, oldest x (Memᴰ.head refl) (queued_status x.status queued), above))
        | inr other ↦ rw other (
            oldest_queued-IsOldest row (x.id + 1) rows hi ordered.1 m q
              (λ y n. oldest y (Memᴰ.tail n)))
      ]

  -- When fewer children run than the concurrency, the next check of the queue starts the queued backtest
  -- with the lowest id, when the ids of the table go up: it has a child after the check.
  pub start_queued_backtests-oldest :
      (saved : Option BacktestLimits) (now : ℕ → ℕ) (r : Runner V) (row : BacktestRow V)
      → r.running_count < (read_backtest_limits saved).concurrency
      → IsOrdered row_id 0 r.tables.rows r.tables.next_id
      → Memᴰ row r.tables.rows
      → row.status ≡ BacktestStatus.queued
      → IsOldest row.id r.tables.rows
      → is_child row.id (start_queued_backtests saved now r).children ≡ true
  start_queued_backtests-oldest saved now r row free ordered m q oldest =
      start_queued_backtests-first saved row.id now r free
        (oldest_queued-IsOldest row 0 r.tables.rows r.tables.next_id ordered m q oldest)
