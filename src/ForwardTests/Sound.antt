-- ===== src/ForwardTests/Sound.antt =====
-- The steps of the Web process, the worker and its children, and their invariant.
use atrade.Prelude.Tables.{IsOrdered-append}
use Prim.Native.String.{String}
use mathlib.Core.List.{Memᴰ}
use mathlib.Core.Path.{subst}
use atrade.Prelude.{All-map, ℕ, ◌≡◌, inl, inr, refl, List, [], ◌∷◌, arith, Bool-cases, All-append}
use atrade.Prelude.Int.{ℤ}
use atrade.Ledger.{Decimals}
use atrade.ForwardTests.{
  DesiredState, ForwardTestRequest, ForwardTestRow, Tables, ForwardTestError, started, is_active,
}
use atrade.ForwardTests.Store.{
  row_id, write_desired_state, live_row, wait_row, write_live_node_start, write_waiting_for_gateway,
  write_error_message, start_interruption,
}
use atrade.ForwardTests.Insert.{start_forward_test}
use atrade.ForwardTests.Worker.{request_restart, compare_row, with_tables}
use atrade.ForwardTests.Child.{ForwardTestWorker, Answers}
use atrade.ForwardTests.Rows.{IsRowOk, supports, HasOwnClients-append, any-append-left}
use atrade.ForwardTests.Children.{IsOk-update_any}
use atrade.ForwardTests.Compares.{IsWorkerOk, ActiveStatus, snapshot, active_needs}
use atrade.ForwardTests.Ends.{wait_row-same, wait_row-IsRowOk}
use atrade.ForwardTests.Passes.{compare_row-IsWorkerOk, request_restart-IsWorkerOk}
use atrade.ForwardTests.Starts.{IsStarted, IsStartResult, start_forward_test-IsStartResult}

live_row-same :
    (row : ForwardTestRow)
    → ((live_row row).id ≡ row.id)
      × ((live_row row).client_id ≡ row.client_id)
      × (is_active (live_row row).status ≡ is_active row.status)
live_row-same row = elim (Bool-cases (is_active row.status)) [
  | inl active ↦ rw active (refl, refl, refl)
  | inr other ↦ rw other (refl, refl, other)
]

live_row-IsRowOk : (row : ForwardTestRow) → IsRowOk row → IsRowOk (live_row row)
live_row-IsRowOk row h = elim (Bool-cases (is_active row.status)) [
  | inl active ↦ rw active (record {
    held = λ _. h.held (active_needs row.status active);
    few_crashes = λ _. h.few_crashes active;
  })
  | inr other ↦ rw other h
]

wait_row-is_active : (row : ForwardTestRow) → is_active (wait_row row).status ≡ is_active row.status
wait_row-is_active row = elim (Bool-cases (is_active row.status)) [
  | inl active ↦ rw active refl
  | inr other ↦ rw other other
]

-- The Web process starts a forward test or writes the desired state; a child writes its start, its wait
-- for IB Gateway or its error; the worker is asked to restart, compares a row with what its pass knows
-- of it, or is a new process without children.
pub data Step (decimals : Decimals) (w : ForwardTestWorker) : ForwardTestWorker → Type 0 where
  starts :
      (request : ForwardTestRequest) (first_client_id count now_utc : ℕ) (net_liquidation_usd : ℤ)
      (account : String) (tables : Tables) (row : ForwardTestRow)
      → start_forward_test request first_client_id count now_utc net_liquidation_usd account
          w.tables
        ≡ started tables row
      → Step decimals w (with_tables tables w)
  desires :
      (id : ℕ) (desired_state : DesiredState)
      → Step decimals w (with_tables (write_desired_state id desired_state w.tables).0 w)
  goes_live :
      (id now_utc : ℕ) → Step decimals w (with_tables (write_live_node_start id now_utc w.tables) w)
  waits :
      (id now_utc : ℕ)
      → Step decimals w (with_tables (write_waiting_for_gateway id now_utc w.tables) w)
  reports :
      (id : ℕ) (message : ForwardTestError)
      → Step decimals w (with_tables (write_error_message id message w.tables) w)
  restarts : (ids : List ℕ) → Step decimals w (request_restart ids w)
  compares :
      (answers : Answers) (d : DesiredState) (s : ActiveStatus) (row : ForwardTestRow)
      → Memᴰ row w.tables.rows
      → Step decimals w (compare_row decimals answers (snapshot d s row) w)
  begins : Step decimals w (record w { running_children = [] })

pub data Reach (decimals : Decimals) (w : ForwardTestWorker) : ForwardTestWorker → Type 0 where
  here : Reach decimals w w
  next : {u v : ForwardTestWorker} → Reach decimals w u → Step decimals u v → Reach decimals w v

start-IsWorkerOk :
    (request : ForwardTestRequest) (first_client_id count now_utc : ℕ) (net_liquidation_usd : ℤ)
    (account : String) (w : ForwardTestWorker) (tables : Tables) (row : ForwardTestRow)
    → IsStarted request first_client_id count now_utc net_liquidation_usd account w.tables tables
        row
    → IsWorkerOk w
    → IsWorkerOk (with_tables tables w)
start-IsWorkerOk request first count now net account w tables row new ok =
    let id_same : w.tables.next_id ≡ row.id = rw new.is_new refl in
    rw (new.rows, new.next_id)
      (record {
        ordered = IsOrdered-append row_id 0 w.tables.rows row w.tables.next_id ok.ordered id_same;
        clients =
            HasOwnClients-append w.tables.rows row new.client_id ok.clients (rw new.is_new refl)
              new.free;
        rows_ok =
            All-append IsRowOk w.tables.rows (row ∷ []) ok.rows_ok
              (rw new.is_new (record { held = λ _. refl; few_crashes = λ _. omega arith }), tt);
        supported =
            All-map w.running_children
              (λ c h. any-append-left (supports c.0 c.1) w.tables.rows row h) ok.supported;
      })

Step-IsWorkerOk :
    {decimals : Decimals} {w v : ForwardTestWorker}
    → Step decimals w v
    → IsWorkerOk w
    → IsWorkerOk v
unfolding write_waiting_for_gateway start_interruption
Step-IsWorkerOk {w = w} (starts request first count now net account tables row e) ok =
    start-IsWorkerOk request first count now net account w tables row
      (subst (IsStartResult request first count now net account w.tables) e
        (start_forward_test-IsStartResult request first count now net account w.tables))
      ok
Step-IsWorkerOk (desires id d) ok =
    IsOk-update_any ok id _ (λ row. refl) (λ row. refl) (λ row. refl)
      (λ row h. record { held = h.held; few_crashes = h.few_crashes })
Step-IsWorkerOk (goes_live id now) ok =
    IsOk-update_any ok id live_row (λ row. (live_row-same row).0) (λ row. (live_row-same row).1)
      (λ row. (live_row-same row).2) live_row-IsRowOk
Step-IsWorkerOk (waits id now) ok =
    IsOk-update_any ok id wait_row (λ row. (wait_row-same row).0) (λ row. (wait_row-same row).1)
      wait_row-is_active wait_row-IsRowOk
Step-IsWorkerOk (reports id message) ok =
    IsOk-update_any ok id _ (λ row. refl) (λ row. refl) (λ row. refl)
      (λ row h. record { held = h.held; few_crashes = h.few_crashes })
Step-IsWorkerOk {w = w} (restarts ids) ok = request_restart-IsWorkerOk ids w ok
Step-IsWorkerOk {decimals} {w = w} (compares answers d s row m) ok =
    compare_row-IsWorkerOk decimals w ok row m d s answers
Step-IsWorkerOk begins ok = record {
  ordered = ok.ordered;
  clients = ok.clients;
  rows_ok = ok.rows_ok;
  supported = tt;
}

-- After any steps from a worker with the invariant, it holds again: no 2 rows hold the same client ID,
-- each running child has a row that holds a client ID, a forward test that is not at its end holds a
-- client ID, and one that is active, so that the worker starts it again, has fewer crashes than the
-- limit.
pub Reach-IsWorkerOk :
    {decimals : Decimals} {w v : ForwardTestWorker}
    → Reach decimals w v
    → IsWorkerOk w
    → IsWorkerOk v
Reach-IsWorkerOk here ok = ok
Reach-IsWorkerOk (next before step) ok = Step-IsWorkerOk step (Reach-IsWorkerOk before ok)
