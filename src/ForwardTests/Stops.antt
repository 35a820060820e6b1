-- ===== src/ForwardTests/Stops.antt =====
-- The end of a stop: what a forward test has afterwards.
use atrade.Prelude.Tables.{update_rows}
use Prim.Native.String.{String}
use mathlib.Core.List.{Memᴰ}
use mathlib.Core.Path.{subst}
use atrade.Prelude.{
  ℕ, ◌==◌, ◌≡◌, inl, inr, refl, sym, ap, ◌∙◌, Bool, true, false, not, ◌&&◌, ◌||◌, List, [], ◌∷◌,
  Option, none, some, arith, Bool-cases,
}
use atrade.Prelude.Int.{pos}
use atrade.Ledger.{Decimals, Instrument}
use atrade.Ledger.Table.{create_forward_test_owner, select_owner_account, transfer_to_by_hand}
use atrade.Ledger.Stopped.{shares, cash, transfer_to_by_hand-moved}
use atrade.ForwardTests.{DesiredState, ForwardTestRow}
use atrade.ForwardTests.Store.{update_row, EndStatus, ended_row}
use atrade.ForwardTests.Insert.{is_taken, has_client}
use atrade.ForwardTests.Worker.{is_stop, is_restart, record_child_end, compare_row}
use atrade.ForwardTests.Child.{
  RunningChild, ForwardTestWorker, Answers, get_child, delete_child, is_run,
}
use atrade.ForwardTests.Rows.{HasOwnClients, IsFree, is_taken-update_row}
use atrade.ForwardTests.Children.{IsOk-supports}
use atrade.ForwardTests.Compares.{IsWorkerOk, ActiveStatus, snapshot, supports-parts}
use atrade.ForwardTests.Ends.{ended_row-client}

get_child-delete_child :
    (id : ℕ) (children : List (ℕ × RunningChild)) → get_child id (delete_child id children) ≡ none
unfolding get_child delete_child
get_child-delete_child id [] = refl
get_child-delete_child id ((other, child) ∷ children) = elim (Bool-cases (other == id)) [
  | inl hit ↦ rw hit (get_child-delete_child id children)
  | inr miss ↦ rw (miss, miss) (get_child-delete_child id children)
]

module _ (now : ℕ) (r : ForwardTestRow) (c : ℕ) (e : r.client_id ≡ some c) where
  taken_by : (rows : List ForwardTestRow) → Memᴰ r rows → is_taken c rows ≡ true
  taken_by [] m = elim m [ ]
  taken_by (x ∷ rows) (Memᴰ.head same) =
      let own : (c == c) ≡ true = ground arith in rw (← same, e, own) refl
  taken_by (x ∷ rows) (Memᴰ.tail m) = elim (Bool-cases (has_client c x.client_id)) [
    | inl hit ↦ rw hit refl
    | inr miss ↦ rw (miss, taken_by rows m) refl
  ]

  other_client :
      (own : Option ℕ) (rows : List ForwardTestRow)
      → IsFree own rows
      → is_taken c rows ≡ true
      → has_client c own ≡ false
  other_client none rows free taken = refl
  other_client (some d) rows free taken = elim (Bool-cases (d == c)) [
    | inl hit ↦ let same : d ≡ c = ground arith in absurd (ground (arith, taken, rw same at free))
    | inr miss ↦ miss
  ]

  -- The client ID of a row that ends is free.
  ended_row-free :
      (rows : List ForwardTestRow)
      → HasOwnClients rows
      → Memᴰ r rows
      → is_taken c (update_row r.id (ended_row EndStatus.ends_stopped now none) rows) ≡ false
  unfolding update_rows
  ended_row-free [] own m = elim m [ ]
  ended_row-free (x ∷ rows) own (Memᴰ.head same) =
      let here : (r.id == r.id) ≡ true = ground arith in
      let free : IsFree (some c) rows =
        subst (λ (o : Option ℕ). IsFree o rows)
          (ap (λ (y : ForwardTestRow). y.client_id) (sym same) ∙ e) own.0 in
      rw (← same, here)
        (is_taken-update_row r.id (ended_row EndStatus.ends_stopped now none)
          (ended_row-client EndStatus.ends_stopped now none) c rows free)
  ended_row-free (x ∷ rows) own (Memᴰ.tail m) =
      let rest = ended_row-free rows own.1 m in
      elim (Bool-cases (x.id == r.id)) [
        | inl hit ↦ rw hit rest
        | inr miss ↦ rw (miss, other_client x.client_id rows own.0 (taken_by rows m)) rest
      ]

no_restart :
    (restart other run stop : Bool)
    → (not run || stop) ≡ true
    → (not restart || run) ≡ true
    → (restart && (other && not stop)) ≡ false
no_restart restart other run stop h k = ground arith

module _ (decimals : Decimals) (w : ForwardTestWorker) (ok : IsWorkerOk w) (r : ForwardTestRow)
    (m : Memᴰ r w.tables.rows) (d : DesiredState) (s : ActiveStatus) (answers : Answers) where
  stopped-tables :
      (child : RunningChild)
      → get_child r.id w.running_children ≡ some child
      → is_stop child ≡ true
      → answers.read_exit_code r.id ≡ some (pos 0)
      → let v = compare_row decimals answers (snapshot d s r) w in
        (v.tables.rows
          ≡ update_row r.id (ended_row EndStatus.ends_stopped answers.now_utc none) w.tables.rows)
        × (v.tables.ledger ≡ transfer_to_by_hand decimals w.tables.ledger r.id answers.now_utc)
        × (v.running_children ≡ delete_child r.id w.running_children)
  unfolding compare_row record_child_end
  stopped-tables child e stops code =
      let (held, active, mode) = supports-parts r child (IsOk-supports ok r child m e) in
      let stays : is_restart child (pos 0) ≡ false =
        no_restart child.is_restart_requested true (is_run child.mode) child.is_stop_requested stops
          mode in
      rw (e, code, stays, stops) (refl, refl, refl)

  -- A child that stops and ends with the exit code 0: after the comparison the forward test has no
  -- child, its client ID is free for another one, and with the account of its first entry it holds no
  -- share and no cash there.
  pub compare_row-stopped :
      (child : RunningChild)
      → get_child r.id w.running_children ≡ some child
      → is_stop child ≡ true
      → answers.read_exit_code r.id ≡ some (pos 0)
      → (c : ℕ) → r.client_id ≡ some c
      → (account : String) (i : Instrument)
      → select_owner_account w.tables.ledger (create_forward_test_owner r.id) ≡ some account
      → let v = compare_row decimals answers (snapshot d s r) w in
        (get_child r.id v.running_children ≡ none)
        × (is_taken c v.tables.rows ≡ false)
        × (shares v.tables.ledger account (create_forward_test_owner r.id) i ≡ pos 0)
        × (cash v.tables.ledger account (create_forward_test_owner r.id) ≡ pos 0)
  compare_row-stopped child e stops code c held account i known =
      let (rows, ledger, children) = stopped-tables child e stops code in
      let (_, _, no_shares, no_cash) =
        transfer_to_by_hand-moved decimals w.tables.ledger r.id answers.now_utc account
          (create_forward_test_owner r.id) i known in
      rw (rows, ledger, children)
        (
          get_child-delete_child r.id w.running_children,
          ended_row-free answers.now_utc r c held w.tables.rows ok.clients m,
          no_shares,
          no_cash,
        )
