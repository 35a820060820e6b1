-- ===== src/Backtests/Starts.antt =====
-- What a check of the queue starts (backend/src/atrade/backtest/backtest_runner.py).
use atrade.Prelude.{
  ℕ, zero, suc, ◌+◌, ◌≤◌, ◌<◌, max, ◌≡◌, refl, ◌⊎◌, inl, Option, none, some, arith,
}
use atrade.Backtests.Store.{oldest_queued, start_next_queued_backtest}
use atrade.Backtests.Runner.{
  BacktestLimits, read_backtest_limits, Runner, start_child, start_children, start_queued_backtests,
}

module _ {V : Type 0} where
  -- The loop has ended by its test, or the queue is empty.
  abbrev IsDone : ℕ → Runner V → Type 0
  IsDone concurrency r = (concurrency ≤ r.running_count) ⊎ (oldest_queued r.tables.rows ≡ none)

  -- A round that does not start a child is the last one.
  start_child-none :
      (concurrency : ℕ) (now : ℕ → ℕ) (r : Runner V)
      → start_child concurrency now r ≡ none
      → IsDone concurrency r
  unfolding start_child start_next_queued_backtest
  start_child-none concurrency now r h = ground (arith, h)

  start_child-count :
      (concurrency : ℕ) (now : ℕ → ℕ) (r s : Runner V)
      → start_child concurrency now r ≡ some s
      → (s.running_count ≡ r.running_count + 1) × (r.running_count < concurrency)
  unfolding start_child
  start_child-count concurrency now r s h = ground (arith, h)

  -- The rule of the loop: what each round keeps holds after it.
  pub start_children-keeps :
      (P : Runner V → Type 0) (concurrency : ℕ) (now : ℕ → ℕ)
      → ((r s : Runner V) → start_child concurrency now r ≡ some s → P r → P s)
      → (fuel : ℕ) (r : Runner V) → P r
      → P (start_children fuel concurrency now r)
  unfolding start_children
  start_children-keeps P concurrency now keep zero r h = h
  start_children-keeps P concurrency now keep (suc fuel) r h =
      go (start_child concurrency now r) refl
        (λ s h. start_children-keeps P concurrency now keep fuel s h)
    where
      go :
          (o : Option (Runner V))
          → start_child concurrency now r ≡ o
          → ((s : Runner V) → P s → P (start_children fuel concurrency now s))
          → P (elim o [ none ↦ r | some s ↦ start_children fuel concurrency now s ])
      go none e rest = h
      go (some s) e rest = rest s (keep r s e h)

  start_children-IsDone :
      (fuel concurrency : ℕ) (now : ℕ → ℕ) (r : Runner V)
      → concurrency ≤ r.running_count + fuel
      → IsDone concurrency (start_children fuel concurrency now r)
  unfolding start_children
  start_children-IsDone zero concurrency now r h = inl (omega arith)
  start_children-IsDone (suc fuel) concurrency now r h =
      go (start_child concurrency now r) refl
        (λ s h. start_children-IsDone fuel concurrency now s h)
    where
      go :
          (o : Option (Runner V))
          → start_child concurrency now r ≡ o
          → ((s : Runner V)
              → concurrency ≤ s.running_count + fuel
              → IsDone concurrency (start_children fuel concurrency now s))
          → IsDone concurrency
              (elim o [ none ↦ r | some s ↦ start_children fuel concurrency now s ])
      go none e rest = start_child-none concurrency now r e
      go (some s) e rest = rest s (omega (arith, start_child-count concurrency now r s e))

  start_children-bound :
      (fuel concurrency : ℕ) (now : ℕ → ℕ) (r : Runner V)
      → (start_children fuel concurrency now r).running_count ≤ max r.running_count concurrency
  start_children-bound fuel concurrency now r =
      start_children-keeps (λ s. s.running_count ≤ max r.running_count concurrency) concurrency now
        (λ s t e h. omega (arith, start_child-count concurrency now s t e)) fuel r (omega arith)

  -- A check of the queue ends: then the children are as many as the concurrency, or more, or no
  -- backtest is queued. It starts no child above the concurrency.
  pub start_queued_backtests-IsDone :
      (saved : Option BacktestLimits) (now : ℕ → ℕ) (r : Runner V)
      → let concurrency = (read_backtest_limits saved).concurrency in
        let after = start_queued_backtests saved now r in
        ((concurrency ≤ after.running_count) ⊎ (oldest_queued after.tables.rows ≡ none))
        × (after.running_count ≤ max r.running_count concurrency)
  unfolding start_queued_backtests
  start_queued_backtests-IsDone saved now r =
      let concurrency = (read_backtest_limits saved).concurrency in
      (
        start_children-IsDone concurrency concurrency now r (omega arith),
        start_children-bound concurrency concurrency now r,
      )
