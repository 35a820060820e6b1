-- ===== src/Backtests/TableStates.antt =====
-- What the requests of the user keep of the table `backtest` and of the children.
use atrade.Prelude.Tables.{update_rows, IsOrdered-append, IsOrdered-update_rows, All-update_rows}
use Prim.Native.String.{String}
use atrade.Prelude.{
  and_both, ℕ, ◌+◌, ◌<◌, ◌≡◌, refl, Bool, true, false, ◌==◌, List, [], ◌∷◌, ◌++◌, Option, none,
  some, arith, any, bind-eq-some, of_some, Bool-cases, inl, inr, All, All-map, All-append,
}
use mathlib.Core.Option.{none-ne-some}
use atrade.Backtests.{is_open, BacktestStatus, BacktestRow, is_queued, UniversePeriod}
use atrade.Backtests.Rows.{NewBacktest, new_row, currency}
use atrade.Backtests.Store.{Tables, select_backtest, insert_backtest}
use atrade.Backtests.Sweeps.{
  without_rows, insert_runs, insert_sweep, cancel_queued_runs, cancel_row, delete_rows,
  delete_found, deleted_or, DeleteRefusal, same_period_backtest, has_deleted_id, delete_backtest,
  delete_sweep, is_in_sweep, with_parameters, add_sweep, delete_selected, has_open_run,
  delete_sweep_row,
}
use atrade.Backtests.Lifecycle.{is_child, IsRowOk, IsOrdered-without_rows, All-without_rows, row_id}
use atrade.Backtests.RowStates.{not_both, IsRowOk-cancel}
use atrade.Backtests.Steps.{IsTableOk}

abbrev pub IsOk : {V : Type 0} → List ℕ → Tables V → Type 0
IsOk children tables = IsTableOk children tables.rows tables.next_id

not_child : (n : ℕ) (cs : List ℕ) → All (λ c. c < n) cs → is_child n cs ≡ false
not_child n [] h = refl
not_child n (c ∷ cs) h =
    let other : (c == n) ≡ false = ground arith in rw other (not_child n cs h.1)

module _ {V : Type 0} (children : List ℕ) where
  pub update_where-IsTableOk :
      (where_row : BacktestRow V → Bool) (set_row : BacktestRow V → BacktestRow V)
      → ((row : BacktestRow V) → (set_row row).id ≡ row.id)
      → ((row : BacktestRow V)
          → where_row row ≡ true
          → IsRowOk children row
          → IsRowOk children (set_row row))
      → (rows : List (BacktestRow V)) (next_id : ℕ) → IsTableOk children rows next_id
      → IsTableOk children (update_rows where_row set_row rows) next_id
  update_where-IsTableOk where_row set_row keep change rows next_id h = record {
    ordered = IsOrdered-update_rows row_id where_row set_row keep 0 rows next_id h.ordered;
    rows_ok =
        All-update_rows (IsRowOk children) (IsRowOk children) where_row set_row change
          (λ row e ok. ok) rows h.rows_ok;
    known = h.known;
  }

  delete-IsTableOk :
      (deleted : BacktestRow V → Bool) (rows : List (BacktestRow V)) (next_id : ℕ)
      → IsTableOk children rows next_id
      → IsTableOk children (without_rows deleted rows) next_id
  delete-IsTableOk deleted rows next_id h = record {
    ordered = IsOrdered-without_rows deleted 0 rows next_id h.ordered;
    rows_ok = All-without_rows (IsRowOk children) deleted rows h.rows_ok;
    known = h.known;
  }

  new_row-IsTableOk :
      (new : NewBacktest V) (c : String) (rows : List (BacktestRow V)) (next_id : ℕ)
      → IsTableOk children rows next_id
      → IsTableOk children (rows ++ new_row next_id new c ∷ []) (next_id + 1)
  unfolding new_row
  new_row-IsTableOk new c rows next_id h = record {
    ordered = IsOrdered-append row_id 0 rows (new_row next_id new c) next_id h.ordered refl;
    rows_ok = All-append (IsRowOk children) rows (new_row next_id new c ∷ []) h.rows_ok (fresh, tt);
    known = All-map children (λ x less. omega arith) h.known;
  }
    where
      fresh : IsRowOk children (new_row next_id new c)
      fresh = record {
        started = refl;
        ended = refl;
        has_child = λ r. absurd (not_both r refl);
        child_started = λ r. absurd (not_both r (not_child next_id children h.known));
      }

  pub insert_backtest-IsOk :
      (new : NewBacktest V) (periods : List UniversePeriod) (tables after : Tables V) (id : ℕ)
      → insert_backtest new periods tables ≡ some (after, id)
      → IsOk children tables
      → IsOk children after
  unfolding insert_backtest
  insert_backtest-IsOk new periods tables after id e h =
      let (c, found, e') = bind-eq-some (currency new.request) _ (after, id) e in
      of_some (λ (p : Tables V × ℕ). IsOk children p.0) e'
        (new_row-IsTableOk new c tables.rows tables.next_id h)

  insert_runs-IsOk :
      (new : NewBacktest V) (periods : List UniversePeriod) (combinations : List V)
      (tables after : Tables V)
      → insert_runs new periods combinations tables ≡ some after
      → IsOk children tables
      → IsOk children after
  unfolding insert_runs
  insert_runs-IsOk new periods [] tables after e h = of_some (IsOk children) e h
  insert_runs-IsOk new periods (v ∷ combinations) tables after e h =
      let (inserted, e1, e2) =
        bind-eq-some (insert_backtest (with_parameters new v) periods tables)
          (λ i. insert_runs new periods combinations i.0) after e in
      insert_runs-IsOk new periods combinations inserted.0 after e2
        (insert_backtest-IsOk (with_parameters new v) periods tables inserted.0 inserted.1 e1 h)

  pub insert_sweep-IsOk :
      (new : NewBacktest V) (grid : String) (combinations : List V) (periods : List UniversePeriod)
      (tables after : Tables V) (sweep_id : ℕ)
      → insert_sweep new grid combinations periods tables ≡ some (after, sweep_id)
      → IsOk children tables
      → IsOk children after
  unfolding insert_sweep
  insert_sweep-IsOk new grid combinations periods tables after sweep_id e h =
      let run = record new { sweep_id = some tables.next_sweep_id } in
      let added = add_sweep new grid tables in
      let (inserted, e1, e2) =
        bind-eq-some (insert_runs run periods combinations added)
          (λ t. some (t, tables.next_sweep_id)) (after, sweep_id) e in
      of_some (λ (p : Tables V × ℕ). IsOk children p.0) e2
        (insert_runs-IsOk run periods combinations added inserted e1 h)

  pub cancel_queued_runs-IsOk :
      (sweep_id now : ℕ) (tables : Tables V)
      → IsOk children tables
      → IsOk children (cancel_queued_runs sweep_id now tables)
  unfolding cancel_queued_runs
  cancel_queued_runs-IsOk sweep_id now tables h =
      update_where-IsTableOk _ (cancel_row now) (λ row. refl)
        (λ row hit ok.
          IsRowOk-cancel children now row
            (and_both (is_in_sweep sweep_id row.sweep_id) (is_queued row.status) hit).1 ok)
        tables.rows tables.next_id h

  delete_rows-IsOk :
      (deleted : BacktestRow V → Bool) (tables after : Tables V)
      → delete_rows deleted tables ≡ some after
      → IsOk children tables
      → IsOk children after
  unfolding delete_rows
  delete_rows-IsOk deleted tables after e h =
      elim (Bool-cases (any (has_deleted_id deleted tables.rows) tables.referred)) [
        | inl refused ↦ absurd (none-ne-some after (rw refused at e))
        | inr free ↦
            of_some (IsOk children) (rw free at e)
              (delete-IsTableOk deleted tables.rows tables.next_id h)
      ]

  deleted_or-IsOk :
      (refusal : DeleteRefusal) (deleted : BacktestRow V → Bool) (tables : Tables V)
      → IsOk children tables
      → IsOk children (deleted_or refusal tables (delete_rows deleted tables)).0
  deleted_or-IsOk refusal deleted tables h = go (delete_rows deleted tables) refl
    where
      go :
          (o : Option (Tables V))
          → delete_rows deleted tables ≡ o
          → IsOk children (deleted_or refusal tables o).0
      go none e = h
      go (some after) e = delete_rows-IsOk deleted tables after e h

  delete_found-IsOk :
      (id : ℕ) (status : BacktestStatus) (sweep_id : Option ℕ) (tables : Tables V)
      → IsOk children tables
      → IsOk children (delete_found id status sweep_id tables).0
  unfolding delete_found
  delete_found-IsOk id status (some sweep_id) tables h = elim (Bool-cases (is_open status)) [
    | inl opened ↦ rw opened h
    | inr closed ↦ rw closed h
  ]
  delete_found-IsOk id status none tables h = elim (Bool-cases (is_open status)) [
    | inl opened ↦ rw opened h
    | inr closed ↦
        rw closed (deleted_or-IsOk (same_period_backtest id) (λ row. row.id == id) tables h)
  ]

  pub delete_backtest-IsOk :
      (id : ℕ) (tables : Tables V)
      → IsOk children tables
      → IsOk children (delete_backtest id tables).0
  unfolding delete_backtest
  delete_backtest-IsOk id tables h = go (select_backtest id tables.rows)
    where
      go : (o : Option (BacktestRow V)) → IsOk children (delete_selected id o tables).0
      go none = h
      go (some row) = delete_found-IsOk id row.status row.sweep_id tables h

  pub delete_sweep-IsOk :
      (sweep_id : ℕ) (tables : Tables V)
      → IsOk children tables
      → IsOk children (delete_sweep sweep_id tables).0
  unfolding delete_sweep
  delete_sweep-IsOk sweep_id tables h = elim (Bool-cases (has_open_run sweep_id tables.rows)) [
    | inl opened ↦ rw opened h
    | inr closed ↦ rw closed (go (delete_rows of_sweep tables) refl)
  ]
    where
      of_sweep : BacktestRow V → Bool
      of_sweep row = is_in_sweep sweep_id row.sweep_id

      go :
          (o : Option (Tables V))
          → delete_rows of_sweep tables ≡ o
          → IsOk children (delete_sweep_row sweep_id tables o).0
      go none e = h
      go (some after) e = delete_rows-IsOk of_sweep tables after e h
