-- ===== src/ForwardTests/Others.antt =====
-- A comparison of a row changes no other row and no other child.
use mathlib.Core.List.{Memᴰ}
use atrade.Prelude.{
  ℕ, ◌==◌, ◌≡◌, inl, inr, refl, ◌∙◌, false, not, ◌&&◌, ◌||◌, List, [], ◌∷◌, Option, none, some,
  arith, Bool-cases, Option-cases, leb, if◌then◌else◌,
}
use atrade.Prelude.Int.{ℤ, pos, eqb_ℤ}
use atrade.Prelude.Tables.{Mem-update_rows}
use atrade.Ledger.{Decimals}
use atrade.ForwardTests.{
  ForwardTestRow, ForwardTestStatus, ForwardTestError, Tables, is_active, is_running_status,
  is_waiting_status,
}
use atrade.ForwardTests.Store.{
  update_row, set_status, EndStatus, ended_row, fail_row, crash_row, wait_row, is_stop_wanted,
  start_interruption, write_waiting_for_gateway,
}
use atrade.ForwardTests.Worker.{
  crash_limit, count_crash, is_restart, is_stop, can_restart, request_stop,
  paper_check_failed_exit_code, gateway_unreachable_exit_code, record_crash, record_child_end,
  compare_child, compare_row, start_child_when_needed, new_child, start_running_child,
  cancel_when_held, interrupt_earlier,
}
use atrade.ForwardTests.Child.{
  ChildMode, RunningChild, ForwardTestWorker, Answers, get_child, delete_child, put_child,
}

-- A row or a child with another id is as before.
pub record KeepsOthers (id : ℕ) (w v : ForwardTestWorker) : Type 0 where
  pub keeps_row :
      (x : ForwardTestRow) → (x.id == id) ≡ false → Memᴰ x w.tables.rows → Memᴰ x v.tables.rows
  pub keeps_child :
      (other : ℕ)
      → (other == id) ≡ false
      → get_child other v.running_children ≡ get_child other w.running_children

pub get_child-delete_other :
    (other id : ℕ) (children : List (ℕ × RunningChild))
    → (other == id) ≡ false
    → get_child other (delete_child id children) ≡ get_child other children
unfolding get_child delete_child
get_child-delete_other other id [] h = refl
get_child-delete_other other id ((i, child) ∷ children) h = elim (Bool-cases (i == id)) [
  | inl hit ↦
      let miss : (i == other) ≡ false = ground arith in
      rw (hit, miss) (get_child-delete_other other id children h)
  | inr kept ↦ rw (kept, get_child-delete_other other id children h) refl
]

get_child-put_other :
    (other id : ℕ) (child : RunningChild) (children : List (ℕ × RunningChild))
    → (other == id) ≡ false
    → get_child other (put_child id child children) ≡ get_child other children
unfolding get_child put_child
get_child-put_other other id child children h =
    let miss : (id == other) ≡ false = ground arith in
    rw (miss, get_child-delete_other other id children h) refl

module _ (r : ForwardTestRow) where
  -- The rows of `after` are those of `before` but for the row with the id of `r`.
  abbrev KeepsRows : Tables → Tables → Type 0
  KeepsRows before after =
      (x : ForwardTestRow) → (x.id == r.id) ≡ false → Memᴰ x before.rows → Memᴰ x after.rows

  update_row-KeepsRows :
      (set_row : ForwardTestRow → ForwardTestRow) (rows : List ForwardTestRow) (x : ForwardTestRow)
      → (x.id == r.id) ≡ false
      → Memᴰ x rows
      → Memᴰ x (update_row r.id set_row rows)
  update_row-KeepsRows set_row rows x other m = Mem-update_rows _ set_row x rows m other

  record_child_end-KeepsRows :
      (decimals : Decimals) (child : RunningChild) (code : ℤ) (now : ℕ) (tables : Tables)
      → KeepsRows tables (record_child_end decimals r child code now tables)
  unfolding record_child_end write_waiting_for_gateway start_interruption record_crash
  record_child_end-KeepsRows decimals child code now tables =
      elim (Bool-cases (is_restart child code)) [
        | inl restart ↦ rw restart (keep (set_status ForwardTestStatus.starting))
        | inr no_restart ↦ elim (Bool-cases (is_stop child && eqb_ℤ code (pos 0))) [
          | inl stops ↦ rw (no_restart, stops) (keep (ended_row EndStatus.ends_stopped now none))
          | inr other ↦ elim (Bool-cases (is_stop child)) [
            | inl fails ↦
                rw (no_restart, other, fails)
                  (keep (
                    fail_row ForwardTestStatus.stop_failed (ForwardTestError.crash_described code)))
            | inr runs ↦ elim (Bool-cases (eqb_ℤ code paper_check_failed_exit_code)) [
              | inl refused ↦
                  rw (no_restart, other, runs, refused)
                    (keep (
                      ended_row EndStatus.ends_failed now
                        (some ForwardTestError.paper_check_failed)))
              | inr checked ↦ elim (Bool-cases (eqb_ℤ code gateway_unreachable_exit_code)) [
                | inl unreachable ↦
                    rw (no_restart, other, runs, checked, unreachable) (keep wait_row)
                | inr crashed ↦
                    rw (no_restart, other, runs, checked, crashed)
                      (keep (
                        crash_row
                          (if leb crash_limit (count_crash r child now)
                            then ForwardTestStatus.failed
                            else ForwardTestStatus.starting)
                          (count_crash r child now) (ForwardTestError.crash_described code)))
              ]
            ]
          ]
        ]
      ]
    where
      keep :
          (set_row : ForwardTestRow → ForwardTestRow) (x : ForwardTestRow)
          → (x.id == r.id) ≡ false
          → Memᴰ x tables.rows
          → Memᴰ x (update_row r.id set_row tables.rows)
      keep set_row = update_row-KeepsRows set_row tables.rows

  put_kept :
      (answers : Answers) (mode : ChildMode) (w u : ForwardTestWorker)
      → KeepsOthers r.id w u
      → (other : ℕ) → (other == r.id) ≡ false
      → get_child other (put_child r.id (new_child mode answers.now_utc) u.running_children)
        ≡ get_child other w.running_children
  put_kept answers mode w u h other miss =
      get_child-put_other other r.id (new_child mode answers.now_utc) u.running_children miss
      ∙ h.keeps_child other miss

  start_running_child-KeepsOthers :
      (answers : Answers) (mode : ChildMode) (status : Option ForwardTestStatus)
      (w u : ForwardTestWorker)
      → KeepsOthers r.id w u
      → KeepsOthers r.id w (start_running_child answers r.id mode status u)
  start_running_child-KeepsOthers answers mode none w u h =
      elim (Bool-cases (answers.starts_child r.id mode)) [
        | inr raised ↦ rw raised h
        | inl starts ↦ rw starts (record {
          keeps_row = h.keeps_row;
          keeps_child = λ other miss. put_kept answers mode w u h other miss;
        })
      ]
  start_running_child-KeepsOthers answers mode (some status) w u h =
      elim (Bool-cases (answers.starts_child r.id mode)) [
        | inr raised ↦ rw raised h
        | inl starts ↦ rw starts (record {
          keeps_row = λ x miss m.
              update_row-KeepsRows (set_status status) u.tables.rows x miss (h.keeps_row x miss m);
          keeps_child = λ other miss. put_kept answers mode w u h other miss;
        })
      ]

module _ (decimals : Decimals) (answers : Answers) (r : ForwardTestRow)
    (w : ForwardTestWorker) where
  same_worker : KeepsOthers r.id w w
  same_worker = record { keeps_row = λ x miss m. m; keeps_child = λ other miss. refl }

  cancel-KeepsOthers :
      (client_id : Option ℕ) → KeepsOthers r.id w (cancel_when_held answers r w client_id)
  cancel-KeepsOthers none = same_worker
  cancel-KeepsOthers (some c) =
      start_running_child-KeepsOthers r answers ChildMode.cancel_orders
        (some ForwardTestStatus.stopping) w w same_worker

  start-KeepsOthers : KeepsOthers r.id w (start_child_when_needed answers r w)
  unfolding start_child_when_needed start_interruption
  start-KeepsOthers = elim (Bool-cases (is_stop_wanted answers.now_utc r)) [
    | inl wanted ↦ rw wanted (cancel-KeepsOthers r.client_id)
    | inr keep ↦ elim (Bool-cases (not (is_active r.status) || not (answers.is_ready_to_run r))) [
      | inl idle ↦ rw (keep, idle) same_worker
      | inr ready ↦
          rw (keep, ready)
            (start_running_child-KeepsOthers r answers ChildMode.run
              (if is_waiting_status r.status then none else some ForwardTestStatus.running) w
              (interrupt_earlier answers r w) interrupted)
    ]
  ]
    where
      interrupted : KeepsOthers r.id w (interrupt_earlier answers r w)
      interrupted = elim (Bool-cases (is_running_status r.status)) [
        | inl earlier ↦
            rw earlier (record { keeps_row = λ x miss m. m; keeps_child = λ other miss. refl })
        | inr new ↦ rw new same_worker
      ]

  child-KeepsOthers :
      (child : RunningChild) (code : Option ℤ)
      → KeepsOthers r.id w (compare_child decimals answers r w child code)
  unfolding record_child_end
  child-KeepsOthers child (some code) = record {
    keeps_row = record_child_end-KeepsRows r decimals child code answers.now_utc w.tables;
    keeps_child = λ other miss. get_child-delete_other other r.id w.running_children miss;
  }
  child-KeepsOthers child none =
      elim (Bool-cases (is_stop_wanted answers.now_utc r && can_restart child)) [
        | inr stays ↦ rw stays same_worker
        | inl stops ↦ rw stops (record {
          keeps_row = update_row-KeepsRows r (set_status ForwardTestStatus.stopping) w.tables.rows;
          keeps_child = λ other miss.
              get_child-put_other other r.id (request_stop child) w.running_children miss;
        })
      ]

  pub compare_row-KeepsOthers : KeepsOthers r.id w (compare_row decimals answers r w)
  unfolding compare_row
  compare_row-KeepsOthers = elim (Option-cases (get_child r.id w.running_children)) [
    | inl e ↦ rw e start-KeepsOthers
    | inr (child, e) ↦ rw e (child-KeepsOthers child (answers.read_exit_code r.id))
  ]
