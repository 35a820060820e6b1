-- ===== src/Backtests/SweepStart.antt =====
-- The runs that the start of a parameter sweep adds.
use Prim.Native.String.{String}
use mathlib.Core.List.{append_assoc, append-nil}
use atrade.Prelude.{
  ℕ, ◌≡◌, refl, sym, ◌∙◌, true, List, [], ◌∷◌, ◌++◌, Option, some, arith, bind-eq-some, of_some,
  Bool-cases, inl, inr, map,
}
use atrade.Backtests.{BacktestStatus, BacktestRow, UniversePeriod}
use atrade.Backtests.Rows.{NewBacktest, new_row, currency}
use atrade.Backtests.Store.{Tables, insert_backtest}
use atrade.Backtests.Sweeps.{
  with_parameters, add_sweep, insert_runs, insert_sweep, select_sweep_runs, is_in_sweep,
}

module _ {V : Type 0} where
  abbrev run_of : BacktestRow V → Option V × BacktestStatus
  run_of row = (row.parameters, row.status)

  -- The parameters and the status of the runs of a sweep, in the order of `select_sweep_runs`.
  abbrev pub sweep_runs : ℕ → Tables V → List (Option V × BacktestStatus)
  sweep_runs sweep_id tables = map run_of (select_sweep_runs sweep_id tables.rows)

  abbrev pub queued_run : V → Option V × BacktestStatus
  queued_run v = (some v, BacktestStatus.queued)

  summary-append :
      (s : ℕ) (rows : List (BacktestRow V)) (row : BacktestRow V)
      → is_in_sweep s row.sweep_id ≡ true
      → map
          (λ (r : BacktestRow V). (r.parameters, r.status))
          (select_sweep_runs s (rows ++ row ∷ []))
        ≡ map run_of (select_sweep_runs s rows) ++ (row.parameters, row.status) ∷ []
  unfolding select_sweep_runs
  summary-append s [] row h = rw h refl
  summary-append s (r ∷ rows) row h = elim (Bool-cases (is_in_sweep s r.sweep_id)) [
    | inl hit ↦ rw (hit, summary-append s rows row h) refl
    | inr miss ↦ rw miss (summary-append s rows row h)
  ]

  sweep_runs-insert_backtest :
      (new : NewBacktest V) (s : ℕ) (periods : List UniversePeriod) (tables : Tables V)
      (inserted : Tables V × ℕ)
      → new.sweep_id ≡ some s
      → insert_backtest new periods tables ≡ some inserted
      → sweep_runs s inserted.0
        ≡ sweep_runs s tables ++ (new.request.parameters, BacktestStatus.queued) ∷ []
  unfolding insert_backtest new_row
  sweep_runs-insert_backtest new s periods tables inserted of_sweep e =
      let (c, found, e') = bind-eq-some (currency new.request) _ inserted e in
      of_some
        (λ (p : Tables V × ℕ).
          sweep_runs s p.0
          ≡ sweep_runs s tables ++ (new.request.parameters, BacktestStatus.queued) ∷ [])
        e'
        (summary-append s tables.rows (new_row tables.next_id new c) (rw of_sweep (ground arith)))

  sweep_runs-insert_runs :
      (new : NewBacktest V) (s : ℕ) (periods : List UniversePeriod) (combinations : List V)
      (tables after : Tables V)
      → new.sweep_id ≡ some s
      → insert_runs new periods combinations tables ≡ some after
      → sweep_runs s after ≡ sweep_runs s tables ++ map queued_run combinations
  unfolding insert_runs
  sweep_runs-insert_runs new s periods [] tables after of_sweep e =
      of_some (λ (t : Tables V). sweep_runs s t ≡ sweep_runs s tables ++ []) e
        (sym (append-nil (sweep_runs s tables)))
  sweep_runs-insert_runs new s periods (v ∷ combinations) tables after of_sweep e =
      let (inserted, e1, e2) =
        bind-eq-some (insert_backtest (with_parameters new v) periods tables)
          (λ i. insert_runs new periods combinations i.0) after e in
      sweep_runs-insert_runs new s periods combinations inserted.0 after of_sweep e2
      ∙ (rw
          (sweep_runs-insert_backtest (with_parameters new v) s periods tables inserted of_sweep e1)
          (append_assoc (sweep_runs s tables) (queued_run v ∷ []) (map queued_run combinations)))

  -- A new sweep has 1 queued run for each combination of its grid, in the order of the grid, when the
  -- table has no run with the id of the new sweep.
  pub insert_sweep-sweep_runs :
      (new : NewBacktest V) (grid : String) (combinations : List V) (periods : List UniversePeriod)
      (tables after : Tables V) (sweep_id : ℕ)
      → insert_sweep new grid combinations periods tables ≡ some (after, sweep_id)
      → select_sweep_runs tables.next_sweep_id tables.rows ≡ []
      → sweep_runs sweep_id after ≡ map queued_run combinations
  unfolding insert_sweep
  insert_sweep-sweep_runs new grid combinations periods tables after sweep_id e fresh =
      let run = record new { sweep_id = some tables.next_sweep_id } in
      let added = add_sweep new grid tables in
      let (inserted, e1, e2) =
        bind-eq-some (insert_runs run periods combinations added)
          (λ t. some (t, tables.next_sweep_id)) (after, sweep_id) e in
      of_some (λ (p : Tables V × ℕ). sweep_runs p.1 p.0 ≡ map queued_run combinations) e2
        (sweep_runs-insert_runs run tables.next_sweep_id periods combinations added inserted refl e1
          ∙ rw fresh refl)
