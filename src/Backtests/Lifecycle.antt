-- ===== src/Backtests/Lifecycle.antt =====
-- The states of a row of the table `backtest`, and what the updates of a table keep.
use atrade.Prelude.Tables.{IsOrdered, IsOrdered-from, IsOrdered-le}
use atrade.Prelude.{
  if◌then◌else◌, ℕ, ◌+◌, ◌≤◌, ◌<◌, ◌≡◌, refl, Bool, true, false, ◌==◌, any, List, [], ◌∷◌, Option,
  none, some, arith, Bool-cases, inl, inr, ◌⊎◌, All,
}
use atrade.Backtests.{BacktestStatus, BacktestRow, is_running, is_queued}
use atrade.Backtests.Store.{oldest_queued}
use atrade.Backtests.Sweeps.{without_rows}

-- A backtest with this status has started; it has ended.
abbrev pub has_started : BacktestStatus → Bool
has_started BacktestStatus.queued = false
has_started BacktestStatus.running = true
has_started BacktestStatus.finished = true
has_started BacktestStatus.failed = true
has_started BacktestStatus.timed_out = true
has_started BacktestStatus.cancelled = false

abbrev pub has_ended : BacktestStatus → Bool
has_ended BacktestStatus.queued = false
has_ended BacktestStatus.running = false
has_ended BacktestStatus.finished = true
has_ended BacktestStatus.failed = true
has_ended BacktestStatus.timed_out = true
has_ended BacktestStatus.cancelled = true

abbrev pub is_some : Option ℕ → Bool
is_some none = false
is_some (some t) = true

abbrev pub is_child : ℕ → List ℕ → Bool
is_child id children = any (λ c. c == id) children

pub no_id : (id : ℕ) → none ≡ some id → ⊥
no_id id h = ground arith

first_or :
    (b : Bool) (x : ℕ) (o : Option ℕ) (y : ℕ)
    → (if b then some x else o) ≡ some y
    → ((b ≡ true) × (x ≡ y)) ⊎ ((b ≡ false) × (o ≡ some y))
first_or true x o y h = inl (refl, ground arith)
first_or false x o y h = inr (refl, h)

module _ {V : Type 0} where
  -- The times of a row are those of its status, a running backtest is one of the children, and a child
  -- has a backtest that has started.
  pub record IsRowOk (children : List ℕ) (row : BacktestRow V) : Type 0 where
    pub started : is_some row.started_at_utc ≡ has_started row.status
    pub ended : is_some row.ended_at_utc ≡ has_ended row.status
    pub has_child : is_running row.status ≡ true → is_child row.id children ≡ true
    pub child_started : is_child row.id children ≡ true → has_started row.status ≡ true

  abbrev pub row_id : BacktestRow V → ℕ
  row_id row = row.id

  pub IsOrdered-without_rows :
      (deleted : BacktestRow V → Bool) (lo : ℕ) (rows : List (BacktestRow V)) (hi : ℕ)
      → IsOrdered row_id lo rows hi
      → IsOrdered row_id lo (without_rows deleted rows) hi
  unfolding without_rows
  IsOrdered-without_rows deleted lo [] hi h = h
  IsOrdered-without_rows deleted lo (r ∷ rows) hi h =
      let rest = IsOrdered-without_rows deleted (r.id + 1) rows hi h.1 in
      elim (Bool-cases (deleted r)) [
        | inl gone ↦ rw gone (IsOrdered-from row_id lo (r.id + 1) _ hi (omega arith) rest)
        | inr kept ↦ rw kept (h.0, rest)
      ]

  pub All-without_rows :
      (P : BacktestRow V → Type 0) (deleted : BacktestRow V → Bool) (rows : List (BacktestRow V))
      → All P rows
      → All P (without_rows deleted rows)
  unfolding without_rows
  All-without_rows P deleted [] h = h
  All-without_rows P deleted (r ∷ rows) h =
      let rest = All-without_rows P deleted rows h.1 in
      elim (Bool-cases (deleted r)) [ inl gone ↦ rw gone rest | inr kept ↦ rw kept (h.0, rest) ]

  -- The oldest queued backtest is the first row, or it is queued after it.
  pub oldest_queued-cons :
      (r : BacktestRow V) (rows : List (BacktestRow V)) (id : ℕ)
      → oldest_queued (r ∷ rows) ≡ some id
      → ((is_queued r.status ≡ true) × (r.id ≡ id))
        ⊎ ((is_queued r.status ≡ false) × (oldest_queued rows ≡ some id))
  unfolding oldest_queued
  oldest_queued-cons r rows id h = first_or (is_queued r.status) r.id (oldest_queued rows) id h

  -- The oldest queued backtest is in the table.
  pub oldest_queued-bounds :
      (lo : ℕ) (rows : List (BacktestRow V)) (hi id : ℕ)
      → IsOrdered row_id lo rows hi
      → oldest_queued rows ≡ some id
      → (lo ≤ id) × (id < hi)
  unfolding oldest_queued
  oldest_queued-bounds lo [] hi id h e = absurd (no_id id e)
  oldest_queued-bounds lo (r ∷ rows) hi id h e = elim (oldest_queued-cons r rows id e) [
    | inl here ↦ omega (arith, h.0, here.1, IsOrdered-le row_id (r.id + 1) rows hi h.1)
    | inr later ↦ omega (arith, h.0, oldest_queued-bounds (r.id + 1) rows hi id h.1 later.1)
  ]
