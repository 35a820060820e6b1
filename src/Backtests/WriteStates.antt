-- ===== src/Backtests/WriteStates.antt =====
-- What the writes of the children, and of the ends of their tasks, keep of the table `backtest`.
use atrade.Prelude.Tables.{IsOrdered-update_rows, All-update_rows}
use atrade.Prelude.{
  and_both, ℕ, ◌<◌, ◌≡◌, ◌≢◌, refl, Bool, true, false, ◌==◌, ◌&&◌, ◌||◌, List, Option, none, some,
  arith, bind-eq-some, of_some, Bool-cases, inl, inr,
}
use mathlib.Core.Option.{none-ne-some}
use atrade.Backtests.{BacktestStatus, is_running, UniversePeriod, ErrorMessage, BacktestResult}
use atrade.Backtests.Store.{
  Tables, end_row, end_backtest, save_result, save_failure, finish_row, insert_results, with_result,
  replace_universe_members, has_row, is_empty, universe_members,
}
use atrade.Backtests.Runner.{
  ChildEnd, timeout, exited, not_run, EndWrite, written, written_by_fail_backtest, not_written,
  remove_child, write_child_end, write_end,
}
use atrade.Backtests.Lifecycle.{is_child, IsRowOk, row_id}
use atrade.Backtests.RowStates.{
  IsFinal, IsRowOk-end, running-has_started, IsRowOk-remove_child, All-remove_child,
}
use atrade.Backtests.TableStates.{IsOk, update_where-IsTableOk}

IsFinal-finished : IsFinal BacktestStatus.finished
IsFinal-finished = record { started = refl; ended = refl; stopped = refl }

pub IsFinal-failed : IsFinal BacktestStatus.failed
IsFinal-failed = record { started = refl; ended = refl; stopped = refl }

IsFinal-timed_out : IsFinal BacktestStatus.timed_out
IsFinal-timed_out = record { started = refl; ended = refl; stopped = refl }

same_child : (a b : ℕ) (cs : List ℕ) → (a == b) ≡ true → is_child b cs ≡ true → is_child a cs ≡ true
same_child a b cs e h = let same : b ≡ a = ground arith in rw same at h

module _ {V : Type 0} where
  pub replace_universe_members-IsOk :
      (children : List ℕ) (id : ℕ) (periods : List UniversePeriod) (tables after : Tables V)
      → replace_universe_members id periods tables ≡ some after
      → IsOk children tables
      → IsOk children after
  unfolding replace_universe_members
  replace_universe_members-IsOk children id periods tables after e h =
      elim (Bool-cases (is_empty (universe_members id periods) || has_row id tables.rows)) [
        | inl free ↦ of_some (IsOk children) (rw free at e) h
        | inr refused ↦ absurd (none-ne-some after (rw refused at e))
      ]

  pub save_failure-IsOk :
      (children : List ℕ) (id now : ℕ) (message : ErrorMessage) (tables : Tables V)
      → is_child id children ≡ true
      → IsOk children tables
      → IsOk children (save_failure id message now tables)
  unfolding save_failure
  save_failure-IsOk children id now message tables c h =
      update_where-IsTableOk children (λ row. row.id == id)
        (end_row now BacktestStatus.failed (some message)) (λ row. refl)
        (λ row hit ok.
          IsRowOk-end children row (end_row now BacktestStatus.failed (some message) row) refl refl
            refl IsFinal-failed (ok.child_started (same_child row.id id children hit c)) ok)
        tables.rows tables.next_id h

  pub save_result-IsOk :
      (children : List ℕ) (id now : ℕ) (result : BacktestResult) (tables after : Tables V)
      → save_result id result now tables ≡ some after
      → is_child id children ≡ true
      → IsOk children tables
      → IsOk children after
  unfolding save_result
  save_result-IsOk children id now result tables after e c h =
      let (points, e1, e2) =
        bind-eq-some (insert_results id result tables)
          (λ points. some (with_result id result now tables points)) after e in
      of_some (IsOk children) e2 (
        update_where-IsTableOk children (λ row. row.id == id) (finish_row now result) (λ row. refl)
          (λ row hit ok.
            IsRowOk-end children row (finish_row now result row) refl refl refl IsFinal-finished
              (ok.child_started (same_child row.id id children hit c)) ok)
          tables.rows tables.next_id h)

  -- The end of a backtest stops it, and its task ends.
  end_backtest-IsOk :
      (children : List ℕ) (id now : ℕ) (status : BacktestStatus) (message : Option ErrorMessage)
      (tables : Tables V)
      → IsFinal status
      → IsOk children tables
      → IsOk (remove_child id children) (end_backtest id now status message tables)
  unfolding end_backtest
  end_backtest-IsOk children id now status message tables final h = record {
    ordered =
        IsOrdered-update_rows row_id _ (end_row now status message) (λ row. refl) 0 tables.rows
          tables.next_id h.ordered;
    rows_ok =
        All-update_rows (IsRowOk children) (IsRowOk (remove_child id children))
          (λ row. row.id == id && is_running row.status) (end_row now status message)
          (λ row hit ok.
            IsRowOk-remove_child children id (end_row now status message row)
              (and_false (row.id == id) (is_running status) final.stopped)
              (IsRowOk-end children row (end_row now status message row) refl refl refl final
                (running-has_started row.status
                  (and_both (row.id == id) (is_running row.status) hit).1)
                ok))
          (λ row miss ok. IsRowOk-remove_child children id row miss ok) tables.rows h.rows_ok;
    known = All-remove_child (λ c. c < tables.next_id) id children h.known;
  }
    where
      and_false : (a b : Bool) → b ≡ false → (a && b) ≡ false
      and_false true b e = e
      and_false false b e = refl

  pub write_end-IsOk :
      (children : List ℕ) (id now : ℕ) (child_end : ChildEnd) (end_write : EndWrite)
      (tables : Tables V)
      → end_write ≢ not_written
      → IsOk children tables
      → IsOk (remove_child id children) (write_end id child_end end_write now tables)
  unfolding write_end write_child_end
  write_end-IsOk children id now timeout written tables w h =
      end_backtest-IsOk children id now _ none tables IsFinal-timed_out h
  write_end-IsOk children id now (exited code output) written tables w h =
      end_backtest-IsOk children id now _ _ tables IsFinal-failed h
  write_end-IsOk children id now not_run written tables w h =
      end_backtest-IsOk children id now _ _ tables IsFinal-failed h
  write_end-IsOk children id now child_end written_by_fail_backtest tables w h =
      end_backtest-IsOk children id now _ _ tables IsFinal-failed h
  write_end-IsOk children id now child_end not_written tables w h = absurd (w refl)
