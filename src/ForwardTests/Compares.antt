-- ===== src/ForwardTests/Compares.antt =====
-- A comparison of the worker keeps the invariant of its rows and its children.
use mathlib.Core.List.{Memᴰ}
use atrade.Prelude.{
  ℕ, ◌<◌, ◌==◌, ◌≡◌, inl, inr, refl, Bool, true, false, not, ◌||◌, List, [], ◌∷◌, Option, none,
  some, arith, Bool-cases, All, and_both, or_false, if◌then◌else◌,
}
use atrade.ForwardTests.{
  DesiredState, ForwardTestStatus, InterruptionReason, ForwardTestRow, is_active, is_running_status,
  is_waiting_status,
}
use atrade.ForwardTests.Store.{is_stop_wanted, is_held, update_row, set_status, start_interruption}
use atrade.ForwardTests.Worker.{
  new_child, cancel_when_held, start_running_child, with_tables, start_child_when_needed,
  crash_limit, is_stop,
}
use atrade.ForwardTests.Child.{
  ChildMode, is_run, RunningChild, ForwardTestWorker, Answers, put_child,
}
use atrade.ForwardTests.Rows.{IsRowOk, needs_client, supports}
use atrade.ForwardTests.Children.{IsOk, put_child-IsNewOrOld, IsOk-child, IsOk-update_row}

abbrev pub IsWorkerOk : ForwardTestWorker → Type 0
IsWorkerOk worker = IsOk worker.tables.rows worker.tables.next_id worker.running_children

pub active_needs : (s : ForwardTestStatus) → is_active s ≡ true → needs_client s ≡ true
active_needs ForwardTestStatus.starting h = refl
active_needs ForwardTestStatus.running h = refl
active_needs ForwardTestStatus.waiting_for_gateway h = refl
active_needs ForwardTestStatus.stopping h = refl
active_needs ForwardTestStatus.stop_failed h = refl
active_needs ForwardTestStatus.stopped h = absurd (ground arith)
active_needs ForwardTestStatus.failed h = absurd (ground arith)

pub row_ok :
    (r : ForwardTestRow) (rows : List ForwardTestRow) → All IsRowOk rows → Memᴰ r rows → IsRowOk r
row_ok r [] h m = elim m [ ]
row_ok r (x ∷ rows) h (Memᴰ.head e) = rw e h.0
row_ok r (x ∷ rows) h (Memᴰ.tail m) = row_ok r rows h.1 m

-- What the row of a child says of it.
pub supports-parts :
    (r : ForwardTestRow) (child : RunningChild)
    → supports r.id child r ≡ true
    → (is_held r.client_id ≡ true)
      × ((is_stop child || is_active r.status) ≡ true)
      × ((not child.is_restart_requested || is_run child.mode) ≡ true)
supports-parts r child h =
    let (_, rest) = and_both (r.id == r.id) _ h in
    let (held, more) = and_both (is_held r.client_id) _ rest in
    let (active, mode) = and_both (is_stop child || is_active r.status) _ more in
    (held, active, mode)

module _ (r : ForwardTestRow) (now : ℕ) where
  new_child-supports :
      (mode : ChildMode) (status : ForwardTestStatus)
      → is_held r.client_id ≡ true
      → (is_stop (new_child mode now) || is_active status) ≡ true
      → supports r.id (new_child mode now) (set_status status r) ≡ true
  new_child-supports mode status held s =
      let same : (r.id == r.id) ≡ true = ground arith in rw (same, held, s) refl

  pub held_row :
      (status : ForwardTestStatus)
      → is_held r.client_id ≡ true
      → (is_active status ≡ true → r.crash_count < crash_limit)
      → IsRowOk (set_status status r)
  held_row status held few = record { held = λ _. held; few_crashes = few }

module _ (worker : ForwardTestWorker) (ok : IsWorkerOk worker) (r : ForwardTestRow)
    (m : Memᴰ r worker.tables.rows) (answers : Answers) where
  -- A child that starts, with a status that fits it.
  started-IsOk :
      (mode : ChildMode) (status : ForwardTestStatus)
      → is_held r.client_id ≡ true
      → (is_stop (new_child mode answers.now_utc) || is_active status) ≡ true
      → (is_active status ≡ true → r.crash_count < crash_limit)
      → IsOk
          (update_row r.id (set_status status) worker.tables.rows)
          worker.tables.next_id
          (put_child r.id (new_child mode answers.now_utc) worker.running_children)
  started-IsOk mode status held fits few =
      IsOk-update_row ok r m (set_status status) (λ row. refl) (λ row. inl refl)
        (held_row r answers.now_utc status held few)
        (put_child r.id (new_child mode answers.now_utc) worker.running_children)
        (put_child-IsNewOrOld worker.tables.rows r (set_status status r)
          (new_child mode answers.now_utc) worker.running_children ok.supported
          (new_child-supports r answers.now_utc mode status held fits))

  cancel-IsWorkerOk :
      (client_id : Option ℕ)
      → r.client_id ≡ client_id
      → IsWorkerOk (cancel_when_held answers r worker client_id)
  cancel-IsWorkerOk none e = ok
  cancel-IsWorkerOk (some c) e =
      elim (Bool-cases (answers.starts_child r.id ChildMode.cancel_orders)) [
        | inr raised ↦ rw raised ok
        | inl starts ↦
            let held : is_held r.client_id ≡ true = rw e refl in
            rw starts (
              started-IsOk ChildMode.cancel_orders ForwardTestStatus.stopping held refl
                (λ h. absurd (ground arith)))
      ]

  -- Of an active row.
  run-IsWorkerOk :
      (waiting : Bool)
      → is_active r.status ≡ true
      → IsWorkerOk (
          start_running_child answers r.id ChildMode.run
            (if waiting then none else some ForwardTestStatus.running)
            worker)
  run-IsWorkerOk true active = elim (Bool-cases (answers.starts_child r.id ChildMode.run)) [
    | inl starts ↦
        let held = (row_ok r worker.tables.rows ok.rows_ok m).held (active_needs r.status active) in
        rw starts (
          IsOk-child ok r m _ (
            put_child-IsNewOrOld worker.tables.rows r r (new_child ChildMode.run answers.now_utc)
              worker.running_children ok.supported
              (new_child-supports r answers.now_utc ChildMode.run r.status held active)))
    | inr raised ↦ rw raised ok
  ]
  run-IsWorkerOk false active = elim (Bool-cases (answers.starts_child r.id ChildMode.run)) [
    | inl starts ↦
        let fine = row_ok r worker.tables.rows ok.rows_ok m in
        rw starts (
          started-IsOk ChildMode.run ForwardTestStatus.running
            (fine.held (active_needs r.status active)) refl (λ h. fine.few_crashes active))
    | inr raised ↦ rw raised ok
  ]

-- What a pass of the worker knows of a row: the desired state and, of an active row, the status can be
-- older than those of the table, which the Web process and the child change.
pub data ActiveStatus : Type 0 where
  starting running waiting_for_gateway : ActiveStatus

abbrev pub status_of : ActiveStatus → ForwardTestStatus
status_of ActiveStatus.starting = ForwardTestStatus.starting
status_of ActiveStatus.running = ForwardTestStatus.running
status_of ActiveStatus.waiting_for_gateway = ForwardTestStatus.waiting_for_gateway

abbrev pub snapshot : DesiredState → ActiveStatus → ForwardTestRow → ForwardTestRow
snapshot desired_state status row = record row {
  desired_state = desired_state;
  status = if is_active row.status then status_of status else row.status;
}

snapshot-is_active :
    (d : DesiredState) (s : ActiveStatus) (row : ForwardTestRow)
    → is_active (snapshot d s row).status ≡ true
    → is_active row.status ≡ true
snapshot-is_active d s row h = elim (Bool-cases (is_active row.status)) [
  | inl active ↦ active
  | inr other ↦ rw other at h
]

pub true_of_not : (b : Bool) → not b ≡ false → b ≡ true
true_of_not b h = ground arith

module _ (worker : ForwardTestWorker) (ok : IsWorkerOk worker) (r : ForwardTestRow)
    (m : Memᴰ r worker.tables.rows) (d : DesiredState) (s : ActiveStatus) (answers : Answers) where
  pub start_child-IsWorkerOk : IsWorkerOk (start_child_when_needed answers (snapshot d s r) worker)
  unfolding start_child_when_needed start_interruption
  start_child-IsWorkerOk =
      let old = snapshot d s r in
      elim (Bool-cases (is_stop_wanted answers.now_utc old)) [
        | inl wanted ↦ rw wanted (cancel-IsWorkerOk worker ok r m answers r.client_id refl)
        | inr keep ↦
            elim (Bool-cases (not (is_active old.status) || not (answers.is_ready_to_run old))) [
              | inl idle ↦ rw (keep, idle) ok
              | inr ready ↦
                  let (on, _) = or_false (not (is_active old.status)) _ ready in
                  let old_active : is_active old.status ≡ true = true_of_not _ on in
                  let active : is_active r.status ≡ true = snapshot-is_active d s r old_active in
                  let waiting = is_waiting_status old.status in
                  elim (Bool-cases (is_running_status old.status)) [
                    | inl earlier ↦
                        rw (keep, ready, earlier)
                          (run-IsWorkerOk
                            (with_tables
                              (start_interruption r.id InterruptionReason.worker_restart
                                answers.now_utc worker.tables)
                              worker)
                            ok r m answers waiting active)
                    | inr new ↦
                        rw (keep, ready, new) (run-IsWorkerOk worker ok r m answers waiting active)
                  ]
            ]
      ]
