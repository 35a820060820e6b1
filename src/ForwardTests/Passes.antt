-- ===== src/ForwardTests/Passes.antt =====
-- A comparison of a row, and a request to restart, keep the invariant.
use mathlib.Core.List.{Memᴰ}
use atrade.Prelude.{
  All-map, ℕ, ◌==◌, ◌≡◌, inl, inr, refl, Bool, true, false, not, ◌&&◌, ◌||◌, any, List, [], ◌∷◌,
  Option, none, some, arith, Bool-cases, Option-cases, and_both,
}
use atrade.Prelude.Int.{ℤ}
use atrade.Ledger.{Decimals}
use atrade.ForwardTests.{DesiredState, ForwardTestStatus, ForwardTestRow, is_active}
use atrade.ForwardTests.Store.{is_stop_wanted, is_held, set_status}
use atrade.ForwardTests.Worker.{
  can_restart, ask_restart, restart_one, request_restart, request_stop, is_stop, record_child_end,
  compare_child, compare_row,
}
use atrade.ForwardTests.Child.{
  RunningChild, ForwardTestWorker, Answers, get_child, put_child, is_run,
}
use atrade.ForwardTests.Rows.{supports}
use atrade.ForwardTests.Children.{
  IsSupported, put_child-IsNewOrOld, IsOk-supports, IsOk-update_row, get_child-All,
  delete_child-others,
}
use atrade.ForwardTests.Compares.{
  IsWorkerOk, ActiveStatus, snapshot, start_child-IsWorkerOk, supports-parts, held_row,
}
use atrade.ForwardTests.Ends.{end_child-IsOk}

-- A child that stops keeps its row.
stop_supports :
    (same held run stop active restart : Bool)
    → same ≡ true
    → held ≡ true
    → (not restart || run) ≡ true
    → (same && (held && (((not run || true) || false) && (not restart || run)))) ≡ true
stop_supports same held run stop active restart h k l = ground arith

module _ (decimals : Decimals) (worker : ForwardTestWorker) (ok : IsWorkerOk worker)
    (r : ForwardTestRow) (m : Memᴰ r worker.tables.rows) (d : DesiredState) (s : ActiveStatus)
    (answers : Answers) where
  child-IsWorkerOk :
      (child : RunningChild) (code : Option ℤ)
      → get_child r.id worker.running_children ≡ some child
      → IsWorkerOk (compare_child decimals answers (snapshot d s r) worker child code)
  unfolding record_child_end
  child-IsWorkerOk child (some code) e =
      let (held, active, mode) = supports-parts r child (IsOk-supports ok r child m e) in
      end_child-IsOk decimals r child code answers.now_utc worker.tables worker.running_children ok
        m held active mode
  child-IsWorkerOk child none e =
      let (held, active, mode) = supports-parts r child (IsOk-supports ok r child m e) in
      let same : (r.id == r.id) ≡ true = ground arith in
      elim (Bool-cases (is_stop_wanted answers.now_utc (snapshot d s r) && can_restart child)) [
        | inr stays ↦ rw stays ok
        | inl stops ↦ rw stops (
            IsOk-update_row ok r m (set_status ForwardTestStatus.stopping) (λ row. refl)
              (λ row. inl refl)
              (held_row r answers.now_utc ForwardTestStatus.stopping held
                (λ h. absurd (ground arith)))
              (put_child r.id (request_stop child) worker.running_children)
              (put_child-IsNewOrOld worker.tables.rows r (set_status ForwardTestStatus.stopping r)
                (request_stop child) worker.running_children ok.supported
                (stop_supports (r.id == r.id) (is_held r.client_id) (is_run child.mode) true false
                  child.is_restart_requested same held mode)))
      ]

  pub compare_row-IsWorkerOk : IsWorkerOk (compare_row decimals answers (snapshot d s r) worker)
  unfolding compare_row
  compare_row-IsWorkerOk = elim (Option-cases (get_child r.id worker.running_children)) [
    | inl e ↦ rw e (start_child-IsWorkerOk worker ok r m d s answers)
    | inr (child, e) ↦ rw e (child-IsWorkerOk child (answers.read_exit_code r.id) e)
  ]

restart_supports :
    (same held run stop active : Bool)
    → same ≡ true
    → held ≡ true
    → ((not run || stop) || active) ≡ true
    → (run && not stop) ≡ true
    → (same && (held && (((not run || stop) || active) && (not true || run)))) ≡ true
restart_supports same held run stop active h k a c = ground arith

module _ (worker : ForwardTestWorker) (ok : IsWorkerOk worker) where
  asked_supports :
      (id : ℕ) (child : RunningChild) (rows : List ForwardTestRow)
      → can_restart child ≡ true
      → any (supports id child) rows ≡ true
      → any (supports id (ask_restart child)) rows ≡ true
  asked_supports id child [] can h = h
  asked_supports id child (row ∷ rows) can h = elim (Bool-cases (supports id child row)) [
    | inl hit ↦
        let (same, rest) = and_both (row.id == id) _ hit in
        let (held, more) = and_both (is_held row.client_id) _ rest in
        let (active, _) = and_both (is_stop child || is_active row.status) _ more in
        let asked : supports id (ask_restart child) row ≡ true =
          restart_supports (row.id == id) (is_held row.client_id) (is_run child.mode)
            child.is_stop_requested (is_active row.status) same held active can in
        rw asked refl
    | inr miss ↦
        let rest = asked_supports id child rows can (rw miss at h) in
        elim (Bool-cases (supports id (ask_restart child) row)) [
          | inl asked ↦ rw asked refl
          | inr other ↦ rw (other, rest) refl
        ]
  ]

  restart_one-IsWorkerOk :
      (id : ℕ) (child : Option RunningChild)
      → get_child id worker.running_children ≡ child
      → IsWorkerOk (restart_one id worker child)
  unfolding put_child
  restart_one-IsWorkerOk id none e = ok
  restart_one-IsWorkerOk id (some child) e = elim (Bool-cases (can_restart child)) [
    | inr no_restart ↦ rw no_restart ok
    | inl can ↦ rw can (record {
      ordered = ok.ordered;
      clients = ok.clients;
      rows_ok = ok.rows_ok;
      supported = (
        asked_supports id child worker.tables.rows can (
            get_child-All (IsSupported worker.tables.rows) id worker.running_children child
              ok.supported e),
        All-map _ (λ c p. p.1)
            (delete_child-others (IsSupported worker.tables.rows) id worker.running_children
              ok.supported),
      );
    })
  ]

pub request_restart-IsWorkerOk :
    (ids : List ℕ) (worker : ForwardTestWorker)
    → IsWorkerOk worker
    → IsWorkerOk (request_restart ids worker)
unfolding request_restart
request_restart-IsWorkerOk [] worker ok = ok
request_restart-IsWorkerOk (id ∷ ids) worker ok =
    request_restart-IsWorkerOk ids _
      (restart_one-IsWorkerOk worker ok id (get_child id worker.running_children) refl)
