-- ===== src/Backtests/TaskStates.antt =====
-- What the starts and the ends of the children keep of the table `backtest` and of the tasks of the
-- runner.
use atrade.Prelude.Tables.{IsOrdered-update_rows, All-update_rows}
use atrade.Prelude.{
  ℕ, ◌<◌, ◌≡◌, ◌≢◌, refl, true, false, ◌==◌, List, [], ◌∷◌, some, arith, bind-eq-some, of_some,
  Bool-cases, inl, inr, ltb, ◌++◌, All, All-map, All-append, if◌then◌else◌,
}
use mathlib.Core.Option.{none-ne-some}
use atrade.Backtests.{BacktestStatus, BacktestRow, is_running, restart_error}
use atrade.Backtests.Store.{
  Tables, update_where, oldest_queued, start_next_queued_backtest, start_row, end_row,
  fail_running_backtests,
}
use atrade.Backtests.Runner.{
  Runner, add_child, start_child, ChildEnd, EndWrite, written, written_by_fail_backtest,
  not_written, is_not_written, remove_child, write_end, run_child_end, restart,
}
use atrade.Backtests.Lifecycle.{is_child, IsRowOk, oldest_queued-bounds, row_id}
use atrade.Backtests.RowStates.{
  not_both, IsRowOk-end, running-has_started, All-IsRowOk-start, length-remove_child,
  All-remove_child, remove_child-append, is_child-moved, is_child-left, All-of_append, All-child,
  IsRowOk-same,
}
use atrade.Backtests.Steps.{Process, IsSound, with_tables}
use atrade.Backtests.TableStates.{IsOk}
use atrade.Backtests.WriteStates.{IsFinal-failed, write_end-IsOk}

module _ {V : Type 0} where
  -- The same running backtests, in another list.
  IsOk-same :
      (cs ds : List ℕ) (tables : Tables V)
      → ((x : ℕ) → is_child x cs ≡ is_child x ds)
      → All (λ c. c < tables.next_id) ds
      → IsOk cs tables
      → IsOk ds tables
  IsOk-same cs ds tables same known h = record {
    ordered = h.ordered;
    rows_ok = All-map tables.rows (IsRowOk-same cs ds same) h.rows_ok;
    known = known;
  }

  -- The task of a backtest ends and its end is not written: it is left running.
  left-IsOk :
      (id : ℕ) (cs left : List ℕ) (tables : Tables V)
      → is_child id cs ≡ true
      → IsOk (cs ++ left) tables
      → IsOk (remove_child id cs ++ id ∷ left) tables
  left-IsOk id cs left tables c h =
      let less : ℕ → Type 0 = λ x. x < tables.next_id in
      let (of_cs, of_left) = All-of_append less cs left h.known in
      IsOk-same (cs ++ left) (remove_child id cs ++ id ∷ left) tables
        (λ x. is_child-left x id cs left c)
        (All-append less (remove_child id cs) (id ∷ left) (All-remove_child less id cs of_cs)
          (All-child less id cs of_cs c, of_left))
        h

  pub run_child_end-IsSound :
      (p : Process V) (id now : ℕ) (child_end : ChildEnd) (end_write : EndWrite)
      → is_child id p.runner.children ≡ true
      → IsSound p
      → IsSound (record {
        runner = run_child_end id child_end end_write now p.runner;
        left = if is_not_written end_write then id ∷ p.left else p.left;
      })
  unfolding run_child_end write_end
  run_child_end-IsSound p id now child_end end_write c h = record {
    table_ok = go end_write;
    count = omega (arith, h.count, length-remove_child id p.runner.children c);
  }
    where
      ends :
          (w : EndWrite)
          → w ≢ not_written
          → IsOk
              (remove_child id p.runner.children ++ p.left)
              (write_end id child_end w now p.runner.tables)
      ends w answered = rw (← remove_child-append id p.runner.children p.left c) (
          write_end-IsOk (p.runner.children ++ p.left) id now child_end w p.runner.tables answered
            h.table_ok)

      go :
          (w : EndWrite)
          → IsOk
              (remove_child id p.runner.children
                ++ (if is_not_written w then id ∷ p.left else p.left))
              (write_end id child_end w now p.runner.tables)
      go written = ends written (λ e. ground arith)
      go written_by_fail_backtest = ends written_by_fail_backtest (λ e. ground arith)
      go not_written = left-IsOk id p.runner.children p.left p.runner.tables c h.table_ok

  start_next_queued_backtest-IsOk :
      (children : List ℕ) (now : ℕ) (tables : Tables V) (started : Tables V × ℕ)
      → start_next_queued_backtest now tables ≡ some started
      → IsOk children tables
      → IsOk (started.1 ∷ children) started.0
  unfolding start_next_queued_backtest
  start_next_queued_backtest-IsOk children now tables started e h =
      let (id, q, e') =
        bind-eq-some (oldest_queued tables.rows)
          (λ id. some (update_where (λ row. row.id == id) (start_row now) tables, id)) started e in
      of_some (λ (p : Tables V × ℕ). IsOk (p.1 ∷ children) p.0) e'
        (record {
          ordered =
              IsOrdered-update_rows row_id _ (start_row now) (λ row. refl) 0 tables.rows
                tables.next_id h.ordered;
          rows_ok =
              All-IsRowOk-start children id now 0 tables.rows tables.next_id q h.ordered h.rows_ok;
          known = ((oldest_queued-bounds 0 tables.rows tables.next_id id h.ordered q).1, h.known);
        })

  pub start_child-IsSound :
      (concurrency : ℕ) (now : ℕ → ℕ) (left : List ℕ) (r s : Runner V)
      → start_child concurrency now r ≡ some s
      → IsSound (record { runner = r; left = left })
      → IsSound (record { runner = s; left = left })
  unfolding start_child
  start_child-IsSound concurrency now left r s e h =
      elim (Bool-cases (ltb r.running_count concurrency)) [
        | inr full ↦ absurd (none-ne-some s (rw full at e))
        | inl free ↦
            let (started, e1, e2) =
              bind-eq-some (start_next_queued_backtest (now r.running_count) r.tables)
                (λ started. some (add_child r started)) s (rw free at e) in
            of_some (λ (t : Runner V). IsSound (record { runner = t; left = left })) e2
              (record {
                table_ok =
                    start_next_queued_backtest-IsOk (r.children ++ left) (now r.running_count)
                      r.tables started e1 h.table_ok;
                count = omega (arith, h.count);
              })
      ]

  -- A start whose answer is lost.
  pub lose_start-IsSound :
      (p : Process V) (now : ℕ) (started : Tables V × ℕ)
      → start_next_queued_backtest now p.runner.tables ≡ some started
      → IsSound p
      → IsSound (record { runner = with_tables p.runner started.0; left = started.1 ∷ p.left })
  lose_start-IsSound p now started e h =
      let less : ℕ → Type 0 = λ x. x < started.0.next_id in
      let ok =
        start_next_queued_backtest-IsOk (p.runner.children ++ p.left) now p.runner.tables started e
          h.table_ok in
      let (of_cs, of_left) = All-of_append less p.runner.children p.left ok.known.1 in
      record {
        table_ok =
            IsOk-same (started.1 ∷ (p.runner.children ++ p.left))
              (p.runner.children ++ started.1 ∷ p.left) started.0
              (λ x. is_child-moved x started.1 p.runner.children p.left)
              (All-append less p.runner.children (started.1 ∷ p.left) of_cs (ok.known.0, of_left))
              ok;
        count = h.count;
      }

  IsRowOk-no_child :
      (children : List ℕ) (row : BacktestRow V)
      → is_running row.status ≡ false
      → IsRowOk children row
      → IsRowOk [] row
  IsRowOk-no_child children row stopped h = record {
    started = h.started;
    ended = h.ended;
    has_child = λ runs. absurd (not_both runs stopped);
    child_started = λ c. absurd (not_both c refl);
  }

  -- After a new process, no backtest is running.
  pub restart-IsSound :
      (now : ℕ) (p : Process V)
      → IsSound p
      → IsSound (record { runner = restart now p.runner.tables; left = [] })
  unfolding restart fail_running_backtests
  restart-IsSound now p h = record {
    table_ok = record {
      ordered =
          IsOrdered-update_rows row_id _ (end_row now BacktestStatus.failed (some restart_error))
            (λ row. refl) 0 p.runner.tables.rows p.runner.tables.next_id h.table_ok.ordered;
      rows_ok =
          All-update_rows (IsRowOk (p.runner.children ++ p.left)) (IsRowOk [])
            (λ row. is_running row.status) (end_row now BacktestStatus.failed (some restart_error))
            (λ row hit ok.
              IsRowOk-no_child (p.runner.children ++ p.left)
                (end_row now BacktestStatus.failed (some restart_error) row) refl
                (IsRowOk-end (p.runner.children ++ p.left) row
                  (end_row now BacktestStatus.failed (some restart_error) row) refl refl refl
                  IsFinal-failed (running-has_started row.status hit) ok))
            (λ row miss ok. IsRowOk-no_child (p.runner.children ++ p.left) row miss ok)
            p.runner.tables.rows h.table_ok.rows_ok;
      known = tt;
    };
    count = refl;
  }
