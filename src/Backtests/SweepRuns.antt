-- ===== src/Backtests/SweepRuns.antt =====
-- The runs of a parameter sweep: what its start adds and what its delete takes away.
use mathlib.Core.Option.{none-ne-some}
use atrade.Prelude.{
  ℕ, ◌≡◌, refl, Bool, true, false, ◌==◌, List, [], ◌∷◌, Option, none, some, arith, of_some,
  Bool-cases, inl, inr, All, any,
}
use atrade.Backtests.{BacktestRow}
use atrade.Backtests.Store.{Tables}
use atrade.Backtests.Sweeps.{
  DeleteRefusal, sweep_is_open, same_period_sweep, select_sweep_runs, delete_rows, without_rows,
  has_deleted_id, is_in_sweep, delete_sweep, delete_sweep_row, has_open_run, without_sweep,
}

in_other :
    (i : Option ℕ) (a b : ℕ) → (b == a) ≡ false → is_in_sweep a i ≡ true → is_in_sweep b i ≡ false
in_other i a b h k = ground arith

module _ {V : Type 0} where
  without_rows-none :
      (deleted : BacktestRow V → Bool) (rows : List (BacktestRow V))
      → All (λ row. deleted row ≡ false) (without_rows deleted rows)
  unfolding without_rows
  without_rows-none deleted [] = tt
  without_rows-none deleted (r ∷ rows) = elim (Bool-cases (deleted r)) [
    | inl gone ↦ rw gone (without_rows-none deleted rows)
    | inr kept ↦ rw kept (kept, without_rows-none deleted rows)
  ]

  -- A table without the runs of a sweep, and with those of all other sweeps as they were.
  pub record IsWithoutSweep (sweep_id : ℕ) (before after : List (BacktestRow V)) : Type 0 where
    pub gone : All (λ row. is_in_sweep sweep_id row.sweep_id ≡ false) after
    pub others :
        (other : ℕ)
        → (other == sweep_id) ≡ false
        → select_sweep_runs other after ≡ select_sweep_runs other before

  select_sweep_runs-without_rows :
      (sweep_id other : ℕ) (rows : List (BacktestRow V))
      → (other == sweep_id) ≡ false
      → select_sweep_runs other (without_rows (λ row. is_in_sweep sweep_id row.sweep_id) rows)
        ≡ select_sweep_runs other rows
  unfolding select_sweep_runs without_rows
  select_sweep_runs-without_rows sweep_id other [] h = refl
  select_sweep_runs-without_rows sweep_id other (r ∷ rows) h =
      let rest = select_sweep_runs-without_rows sweep_id other rows h in
      elim (Bool-cases (is_in_sweep sweep_id r.sweep_id)) [
        | inl gone ↦ rw (gone, in_other r.sweep_id sweep_id other h gone) rest
        | inr kept ↦ rw (kept, rest) refl
      ]

  delete_rows-IsWithoutSweep :
      (sweep_id : ℕ) (tables after : Tables V)
      → delete_rows (λ row. is_in_sweep sweep_id row.sweep_id) tables ≡ some after
      → IsWithoutSweep sweep_id tables.rows after.rows
  unfolding delete_rows
  delete_rows-IsWithoutSweep sweep_id tables after e =
      elim (Bool-cases (any (has_deleted_id of_sweep tables.rows) tables.referred)) [
        | inl refused ↦ absurd (none-ne-some after (rw refused at e))
        | inr free ↦
            of_some (λ (t : Tables V). IsWithoutSweep sweep_id tables.rows t.rows) (rw free at e)
              (record {
                gone = without_rows-none of_sweep tables.rows;
                others = λ other h. select_sweep_runs-without_rows sweep_id other tables.rows h;
              })
      ]
    where
      of_sweep : BacktestRow V → Bool
      of_sweep row = is_in_sweep sweep_id row.sweep_id

  -- The result of a delete of a sweep: it is refused and writes nothing, or it takes the runs away.
  pub data DeleteOutcome (sweep_id : ℕ) (before : Tables V)
      : Tables V × Option DeleteRefusal → Type 0 where
    refused_open :
        has_open_run sweep_id before.rows ≡ true
        → DeleteOutcome sweep_id before (before, some (sweep_is_open sweep_id))
    refused_referred :
        has_open_run sweep_id before.rows ≡ false
        → DeleteOutcome sweep_id before (before, some (same_period_sweep sweep_id))
    deleted :
        (after : Tables V)
        → has_open_run sweep_id before.rows ≡ false
        → IsWithoutSweep sweep_id before.rows after.rows
        → DeleteOutcome sweep_id before (after, none)

  -- A delete of a sweep with a queued or running run is refused. Each delete that is refused writes
  -- nothing; one that is not takes all runs of the sweep away, and no run of another sweep.
  pub delete_sweep-DeleteOutcome :
      (sweep_id : ℕ) (tables : Tables V)
      → DeleteOutcome sweep_id tables (delete_sweep sweep_id tables)
  unfolding delete_sweep
  delete_sweep-DeleteOutcome sweep_id tables =
      elim (Bool-cases (has_open_run sweep_id tables.rows)) [
        | inl opened ↦ rw opened (refused_open opened)
        | inr closed ↦ rw closed (go (delete_rows of_sweep tables) refl closed)
      ]
    where
      of_sweep : BacktestRow V → Bool
      of_sweep row = is_in_sweep sweep_id row.sweep_id

      go :
          (o : Option (Tables V))
          → delete_rows of_sweep tables ≡ o
          → has_open_run sweep_id tables.rows ≡ false
          → DeleteOutcome sweep_id tables (delete_sweep_row sweep_id tables o)
      go none e closed = refused_referred closed
      go (some after) e closed =
          deleted (record after { sweeps = without_sweep sweep_id after.sweeps }) closed
            (delete_rows-IsWithoutSweep sweep_id tables after e)
