-- ===== src/ByHand/Recorded.antt =====
-- The fills of the same executions are recorded once.
use Prim.Native.String.{String}
use text.Mathlib.TextPositions.{eq_refl}
use package.text.Mathlib.Text.{◌==◌ as str_eq}
use atrade.Prelude.{
  ℕ, ◌≡◌, ◌⊎◌, inl, inr, refl, Bool, true, not, ◌==◌, ◌||◌, any, List, [], ◌∷◌, Option, none,
  if◌then◌else◌, some, Bool-cases, All, any-append, any-append-last, arith,
}
use atrade.Ledger.{Decimals}
use atrade.Ledger.Table.{Row, Table, NewFill, insert_fill, has_execution}
use atrade.ByHand.{
  Execution, OrderRow, Answers, get_order, is_recorded, is_before, build_fill, insert_built,
  record_with, record_executions,
}

-- Each row that a condition finds stays.
abbrev Grows : Table → Table → Type 0
Grows table after = (f : Row → Bool) → any f table ≡ true → any f after ≡ true

insert_fill-Grows : (table : Table) (fill : NewFill) → Grows table (insert_fill table fill)
unfolding insert_fill
insert_fill-Grows table fill f h = elim (Bool-cases (has_execution fill.ibkr_execution_id table)) [
  | inl known ↦ rw known h
  | inr new ↦ rw (new, any-append f table _, h) refl
]

insert_fill-has_execution :
    (table : Table) (fill : NewFill)
    → has_execution fill.ibkr_execution_id (insert_fill table fill) ≡ true
unfolding insert_fill
insert_fill-has_execution table fill =
    elim (Bool-cases (has_execution fill.ibkr_execution_id table)) [
      | inl known ↦ rw known known
      | inr new ↦ rw new (any-append-last _ table _ (eq_refl fill.ibkr_execution_id))
    ]

known-insert_fill :
    (table : Table) (fill : NewFill)
    → has_execution fill.ibkr_execution_id table ≡ true
    → insert_fill table fill ≡ table
unfolding insert_fill
known-insert_fill table fill h = rw h refl

module _ (decimals : Decimals) (answers : Answers) (account : String) (start_utc : Option ℕ) where
  record_with-Grows :
      (e : Execution) (table : Table) (o : Option OrderRow)
      → Grows table (record_with decimals answers account start_utc e table o)
  record_with-Grows e table none f h = h
  record_with-Grows e table (some order) f h =
      elim (Bool-cases (
        not (str_eq e.account account)
        || not (e.client_id == answers.web_client_id)
        || is_before e.time_utc start_utc)) [
          | inl skipped ↦ rw skipped h
          | inr own ↦ rw own (built (build_fill decimals answers account order.instrument e))
        ]
    where
      built : (o : Option NewFill) → any f (insert_built decimals answers account table o) ≡ true
      built none = h
      built (some fill) = insert_fill-Grows table fill f h

  -- Its fill, if it has one, is in the table: the execution writes no row to a table with these rows.
  record_with-again :
      (e : Execution) (table after : Table) (o : Option OrderRow)
      → Grows (record_with decimals answers account start_utc e table o) after
      → record_with decimals answers account start_utc e after o ≡ after
  record_with-again e table after none grows = refl
  record_with-again e table after (some order) grows =
      elim (Bool-cases (
        not (str_eq e.account account)
        || not (e.client_id == answers.web_client_id)
        || is_before e.time_utc start_utc)) [
          | inl skipped ↦ rw skipped refl
          | inr own ↦
              rw own
                (built (build_fill decimals answers account order.instrument e) (rw own at grows))
        ]
    where
      built :
          (o : Option NewFill)
          → Grows (insert_built decimals answers account table o) after
          → insert_built decimals answers account after o ≡ after
      built none g = refl
      built (some fill) g =
          known-insert_fill after fill (g _ (insert_fill-has_execution table fill))

  module _ (orders : List OrderRow) where
    -- To a table with the rows of another one, the execution adds no row.
    abbrev IsRecorded : Execution → Table → Type 0
    IsRecorded e table =
        (after : Table)
        → Grows table after
        → (is_recorded after e.execution_id ≡ true)
          ⊎ (record_with decimals answers account start_utc e after
                (get_order account e.order_id orders)
              ≡ after)

    abbrev after_one : Table → Execution → Table → Table
    after_one recorded e table =
        if is_recorded recorded e.execution_id
        then table
        else record_with decimals answers account start_utc e table
            (get_order account e.order_id orders)

    after_one-Grows :
        (recorded : Table) (e : Execution) (table : Table)
        → Grows table (after_one recorded e table)
    after_one-Grows recorded e table f h = elim (Bool-cases (is_recorded recorded e.execution_id)) [
      | inl known ↦ rw known h
      | inr new ↦ rw new (record_with-Grows e table _ f h)
    ]

    after_one-IsRecorded :
        (recorded : Table) (e : Execution) (table : Table)
        → Grows recorded table
        → IsRecorded e (after_one recorded e table)
    unfolding is_recorded
    after_one-IsRecorded recorded e table grown after grows =
        elim (Bool-cases (is_recorded recorded e.execution_id)) [
          | inl known ↦ inl ((rw known at grows) _ (grown _ known))
          | inr new ↦ inr (record_with-again e table after _ (rw new at grows))
        ]

    executions-Grows :
        (recorded : Table) (es : List Execution) (table : Table)
        → Grows table
            (record_executions decimals answers account orders recorded start_utc es table)
    unfolding record_executions
    executions-Grows recorded [] table f h = h
    executions-Grows recorded (e ∷ es) table f h =
        executions-Grows recorded es (after_one recorded e table) f
          (after_one-Grows recorded e table f h)

    executions-IsRecorded :
        (recorded : Table) (es : List Execution) (table : Table)
        → Grows recorded table
        → All
            (λ (e : Execution).
              IsRecorded e
                (record_executions decimals answers account orders recorded start_utc es table))
            es
    unfolding record_executions
    executions-IsRecorded recorded [] table grown = tt
    executions-IsRecorded recorded (e ∷ es) table grown = (
      λ after grows.
          after_one-IsRecorded recorded e table grown after
            (λ f h. grows f (executions-Grows recorded es (after_one recorded e table) f h)),
      executions-IsRecorded recorded es (after_one recorded e table)
          (λ f h. after_one-Grows recorded e table f (grown f h)),
    )

    recorded-again :
        (table : Table) (es : List Execution)
        → All (λ (e : Execution). IsRecorded e table) es
        → record_executions decimals answers account orders table start_utc es table ≡ table
    unfolding record_executions
    recorded-again table [] all = refl
    recorded-again table (e ∷ es) all =
        let same : after_one table e table ≡ table =
          elim (Bool-cases (is_recorded table e.execution_id)) [
            | inl known ↦ rw known refl
            | inr new ↦ elim (all.0 table (λ f h. h)) [
              | inl known ↦ absurd (ground (arith, new, known))
              | inr again ↦ rw new again
            ]
          ] in
        rw same (recorded-again table es all.1)

    -- The record of the same executions again, with the ids of the table then recorded, writes no row.
    pub record_executions-again :
        (executions : List Execution) (table : Table)
        → let after =
            record_executions decimals answers account orders table start_utc executions table in
          record_executions decimals answers account orders after start_utc executions after ≡ after
    record_executions-again executions table =
        recorded-again _ executions (executions-IsRecorded table executions table (λ f h. h))
