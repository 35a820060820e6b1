-- ===== src/ForwardTests/Ends.antt =====
-- The end of a child process keeps the invariant of the rows and the children.
use mathlib.Core.List.{Memᴰ}
use atrade.Prelude.{
  ℕ, ◌<◌, leb, ◌≡◌, ◌⊎◌, inl, inr, refl, Bool, true, not, ◌&&◌, ◌||◌, List, Option, none, some,
  arith, Bool-cases,
}
use atrade.Prelude.Int.{ℤ, pos, eqb_ℤ}
use atrade.Ledger.{Decimals}
use atrade.ForwardTests.{ForwardTestStatus, ForwardTestRow, Tables, ForwardTestError, is_active}
use atrade.ForwardTests.Store.{
  is_held, update_row, set_status, EndStatus, ended_row, fail_row, crash_row, wait_row,
  start_interruption, write_waiting_for_gateway,
}
use atrade.ForwardTests.Worker.{
  crash_limit, count_crash, record_crash, is_restart, is_stop, record_child_end,
  paper_check_failed_exit_code, gateway_unreachable_exit_code,
}
use atrade.ForwardTests.Child.{is_run, RunningChild, delete_child}
use atrade.ForwardTests.Rows.{IsRowOk}
use atrade.ForwardTests.Children.{IsOk, delete_child-IsNewOrOld, IsOk-update_row}
use atrade.ForwardTests.Compares.{active_needs, row_ok, held_row}

pub ended_row-client :
    (status : EndStatus) (now : ℕ) (message : Option ForwardTestError) (row : ForwardTestRow)
    → ((ended_row status now message row).client_id ≡ row.client_id)
      ⊎ ((ended_row status now message row).client_id ≡ none)
ended_row-client EndStatus.ends_stopped now message row = inr refl
ended_row-client EndStatus.ends_failed now message row = inr refl

ended_row-id :
    (status : EndStatus) (now : ℕ) (message : Option ForwardTestError) (row : ForwardTestRow)
    → (ended_row status now message row).id ≡ row.id
ended_row-id EndStatus.ends_stopped now message row = refl
ended_row-id EndStatus.ends_failed now message row = refl

ended_row-IsRowOk :
    (status : EndStatus) (now : ℕ) (message : Option ForwardTestError) (row : ForwardTestRow)
    → IsRowOk (ended_row status now message row)
ended_row-IsRowOk EndStatus.ends_stopped now message row = record {
  held = λ h. absurd (ground arith);
  few_crashes = λ h. absurd (ground arith);
}
ended_row-IsRowOk EndStatus.ends_failed now message row = record {
  held = λ h. absurd (ground arith);
  few_crashes = λ h. absurd (ground arith);
}

pub wait_row-same :
    (row : ForwardTestRow)
    → ((wait_row row).id ≡ row.id) × ((wait_row row).client_id ≡ row.client_id)
wait_row-same row = elim (Bool-cases (is_active row.status)) [
  | inl active ↦ rw active (refl, refl)
  | inr other ↦ rw other (refl, refl)
]

pub wait_row-IsRowOk : (row : ForwardTestRow) → IsRowOk row → IsRowOk (wait_row row)
wait_row-IsRowOk row h = elim (Bool-cases (is_active row.status)) [
  | inl active ↦ rw active (record {
    held = λ _. h.held (active_needs row.status active);
    few_crashes = λ _. h.few_crashes active;
  })
  | inr other ↦ rw other h
]

restart_active :
    (restart run stop active other : Bool)
    → (restart && (other && not stop)) ≡ true
    → ((not run || stop) || active) ≡ true
    → (not restart || run) ≡ true
    → active ≡ true
restart_active restart run stop active other h k l = ground arith

module _ (decimals : Decimals) (r : ForwardTestRow) (child : RunningChild) (code : ℤ) (now : ℕ)
    (tables : Tables) (children : List (ℕ × RunningChild))
    (ok : IsOk tables.rows tables.next_id children) (m : Memᴰ r tables.rows)
    (held : is_held r.client_id ≡ true) (active : (is_stop child || is_active r.status) ≡ true)
    (mode : (not child.is_restart_requested || is_run child.mode) ≡ true) where
  ended-IsOk :
      (set_row : ForwardTestRow → ForwardTestRow)
      → ((row : ForwardTestRow) → (set_row row).id ≡ row.id)
      → ((row : ForwardTestRow)
          → ((set_row row).client_id ≡ row.client_id) ⊎ ((set_row row).client_id ≡ none))
      → IsRowOk (set_row r)
      → IsOk (update_row r.id set_row tables.rows) tables.next_id (delete_child r.id children)
  ended-IsOk set_row keep keep_client fine =
      IsOk-update_row ok r m set_row keep keep_client fine (delete_child r.id children)
        (delete_child-IsNewOrOld tables.rows r (set_row r) children ok.supported)

  crash-IsOk :
      IsOk (record_crash r child now code tables).rows tables.next_id (delete_child r.id children)
  unfolding record_crash start_interruption
  crash-IsOk =
      let count = count_crash r child now in
      elim (Bool-cases (leb crash_limit count)) [
        | inl over ↦ rw over (
            ended-IsOk
              (crash_row ForwardTestStatus.failed count (ForwardTestError.crash_described code))
              (λ row. refl) (λ row. inl refl)
              (record {
                held = λ h. absurd (ground arith);
                few_crashes = λ h. absurd (ground arith);
              }))
        | inr under ↦
            let few : count < crash_limit = ground arith in
            rw under (
              ended-IsOk
                (crash_row ForwardTestStatus.starting count (ForwardTestError.crash_described code))
                (λ row. refl) (λ row. inl refl)
                (record { held = λ _. held; few_crashes = λ _. few }))
      ]

  pub end_child-IsOk :
      IsOk
        (record_child_end decimals r child code now tables).rows
        (record_child_end decimals r child code now tables).next_id
        (delete_child r.id children)
  unfolding record_child_end write_waiting_for_gateway start_interruption record_crash
  end_child-IsOk = elim (Bool-cases (is_restart child code)) [
    | inl restart ↦
        let few : r.crash_count < crash_limit = (row_ok r tables.rows ok.rows_ok m).few_crashes (
          restart_active child.is_restart_requested (is_run child.mode) child.is_stop_requested
            (is_active r.status) _ restart active mode) in
        rw restart (
          ended-IsOk (set_status ForwardTestStatus.starting) (λ row. refl) (λ row. inl refl)
            (held_row r now ForwardTestStatus.starting held (λ _. few)))
    | inr no_restart ↦ elim (Bool-cases (is_stop child && eqb_ℤ code (pos 0))) [
      | inl stops ↦
          rw (no_restart, stops)
            (ended-IsOk (ended_row EndStatus.ends_stopped now none)
              (ended_row-id EndStatus.ends_stopped now none)
              (ended_row-client EndStatus.ends_stopped now none)
              (ended_row-IsRowOk EndStatus.ends_stopped now none r))
      | inr other ↦ elim (Bool-cases (is_stop child)) [
        | inl stop_fails ↦
            rw (no_restart, other, stop_fails)
              (ended-IsOk
                (fail_row ForwardTestStatus.stop_failed (ForwardTestError.crash_described code))
                (λ row. refl) (λ row. inl refl)
                (record { held = λ _. held; few_crashes = λ h. absurd (ground arith) }))
        | inr runs ↦ elim (Bool-cases (eqb_ℤ code paper_check_failed_exit_code)) [
          | inl refused ↦
              let message = some ForwardTestError.paper_check_failed in
              rw (no_restart, other, runs, refused)
                (ended-IsOk (ended_row EndStatus.ends_failed now message)
                  (ended_row-id EndStatus.ends_failed now message)
                  (ended_row-client EndStatus.ends_failed now message)
                  (ended_row-IsRowOk EndStatus.ends_failed now message r))
          | inr checked ↦ elim (Bool-cases (eqb_ℤ code gateway_unreachable_exit_code)) [
            | inl unreachable ↦
                rw (no_restart, other, runs, checked, unreachable)
                  (ended-IsOk wait_row (λ row. (wait_row-same row).0)
                    (λ row. inl (wait_row-same row).1)
                    (wait_row-IsRowOk r (row_ok r tables.rows ok.rows_ok m)))
            | inr crashed ↦ rw (no_restart, other, runs, checked, crashed) crash-IsOk
          ]
        ]
      ]
    ]
  ]
