-- ===== src/ForwardTests/Requests.antt =====
-- The stop requests of a pass of the worker.
use mathlib.Core.List.{Memᴰ}
use atrade.Prelude.{
  ℕ, ◌+◌, ◌==◌, ◌≡◌, refl, ◌∙◌, Bool, true, false, not, ◌&&◌, ◌||◌, List, [], ◌∷◌, none, some,
  arith, All, All-map,
}
use atrade.Prelude.Tables.{IsOrdered, IsOrdered-mem, Mem-update_rows-changed}
use atrade.Ledger.{Decimals}
use atrade.ForwardTests.{ForwardTestStatus, ForwardTestRow, is_active, is_to_compare}
use atrade.ForwardTests.Store.{row_id, is_held, is_stop_wanted, set_status, select_rows_to_compare}
use atrade.ForwardTests.Worker.{
  can_restart, request_stop, is_stop, compare_row, compare_rows, compare_states,
}
use atrade.ForwardTests.Child.{
  RunningChild, ForwardTestWorker, Answers, get_child, put_child, is_run,
}
use atrade.ForwardTests.Children.{IsOk-supports}
use atrade.ForwardTests.Compares.{IsWorkerOk, supports-parts}
use atrade.ForwardTests.Others.{compare_row-KeepsOthers}
use atrade.ForwardTests.OnePass.{IsOrdered-select, Mem-select, others_after, compare_rows-others}

not_stop : (run stop : Bool) → (run && not stop) ≡ true → (not run || stop) ≡ false
not_stop run stop h = ground arith

active_to_compare :
    (s : ForwardTestStatus) (held : Bool) → is_active s ≡ true → is_to_compare s held ≡ true
active_to_compare ForwardTestStatus.starting held h = refl
active_to_compare ForwardTestStatus.running held h = refl
active_to_compare ForwardTestStatus.waiting_for_gateway held h = refl
active_to_compare ForwardTestStatus.stopping held h = refl
active_to_compare ForwardTestStatus.stop_failed held h = refl
active_to_compare ForwardTestStatus.stopped held h = absurd (ground arith)
active_to_compare ForwardTestStatus.failed held h = absurd (ground arith)

module _ (decimals : Decimals) (answers : Answers) (r : ForwardTestRow) (child : RunningChild)
    (can : can_restart child ≡ true) (wanted : is_stop_wanted answers.now_utc r ≡ true)
    (runs : answers.read_exit_code r.id ≡ none) where
  -- The child has the stop request, and the row has the status "stopping".
  abbrev HasRequest : ForwardTestWorker → Type 0
  HasRequest v =
      (get_child r.id v.running_children ≡ some (request_stop child))
      × Memᴰ (set_status ForwardTestStatus.stopping r) v.tables.rows

  compare_row-HasRequest :
      (w : ForwardTestWorker)
      → Memᴰ r w.tables.rows
      → get_child r.id w.running_children ≡ some child
      → HasRequest (compare_row decimals answers r w)
  unfolding compare_row put_child get_child
  compare_row-HasRequest w m e =
      let same : (r.id == r.id) ≡ true = ground arith in
      rw (e, runs, wanted, can, same)
        (
          refl,
          Mem-update_rows-changed _ (set_status ForwardTestStatus.stopping) r w.tables.rows m same,
        )

  compare_rows-HasRequest :
      (w : ForwardTestWorker) (lo : ℕ) (rows : List ForwardTestRow) (hi : ℕ)
      → IsOrdered row_id lo rows hi
      → Memᴰ r rows
      → Memᴰ r w.tables.rows
      → get_child r.id w.running_children ≡ some child
      → HasRequest (compare_rows decimals answers rows w)
  unfolding compare_rows
  compare_rows-HasRequest w lo [] hi ordered here m e = elim here [ ]
  compare_rows-HasRequest w lo (row ∷ rows) hi ordered (Memᴰ.head same) m e =
      let (asked, stopping) = compare_row-HasRequest w m e in
      let others : All (λ (x : ForwardTestRow). (r.id == x.id) ≡ false) rows =
        All-map rows (λ x other. ground arith)
          (others_after r.id (row.id + 1) rows hi ordered.1 (rw (← same) (omega arith))) in
      let (kept, left) =
        compare_rows-others decimals answers (set_status ForwardTestStatus.stopping r)
          (compare_row decimals answers r w) rows others stopping in
      rw (← same) (left ∙ asked, kept)
  compare_rows-HasRequest w lo (row ∷ rows) hi ordered (Memᴰ.tail later) m e =
      let above = IsOrdered-mem row_id r (row.id + 1) rows hi ordered.1 later in
      let other : (r.id == row.id) ≡ false = ground (arith, above) in
      let keeps = compare_row-KeepsOthers decimals answers row w in
      compare_rows-HasRequest (compare_row decimals answers row w) (row.id + 1) rows hi ordered.1
        later (keeps.keeps_row r other m) (keeps.keeps_child r.id other ∙ e)

  -- A stop goes out in the next pass of the worker, when the invariant holds: a forward test that the
  -- user stopped, or whose end time came, has a child that runs and was not asked to stop. After the
  -- pass this child is asked to stop and the row has the status "stopping", among any other rows.
  pub compare_states-HasRequest :
      (w : ForwardTestWorker)
      → IsWorkerOk w
      → Memᴰ r w.tables.rows
      → get_child r.id w.running_children ≡ some child
      → let v = compare_states decimals answers w in
        (get_child r.id v.running_children ≡ some (request_stop child))
        × Memᴰ (set_status ForwardTestStatus.stopping r) v.tables.rows
  unfolding compare_states
  compare_states-HasRequest w ok m e =
      let (held, active, mode) = supports-parts r child (IsOk-supports ok r child m e) in
      let goes_on : is_stop child ≡ false =
        not_stop (is_run child.mode) child.is_stop_requested can in
      let on : is_active r.status ≡ true = rw goes_on at active in
      compare_rows-HasRequest w 0 (select_rows_to_compare w.tables.rows) w.tables.next_id
        (IsOrdered-select 0 w.tables.rows w.tables.next_id ok.ordered)
        (Mem-select r w.tables.rows m (active_to_compare r.status (is_held r.client_id) on)) m e
