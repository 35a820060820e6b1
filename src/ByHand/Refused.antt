-- ===== src/ByHand/Refused.antt =====
-- What a new order by hand that passes its check cannot do.
use Prim.Native.String.{String}
use mathlib.Core.Option.{none-ne-some}
use atrade.Prelude.{
  ◌≡◌, refl, sym, true, any, List, [], ◌∷◌, Option, none, some, Bool-cases, inl, inr, bind-eq-some,
  of_some, arith,
}
use atrade.Prelude.Int.{◌+ℤ◌, ◌≤ℤ◌}
use atrade.Ledger.{LedgerEntry, Decimals, by_hand}
use atrade.Ledger.Sums.{held}
use atrade.Ledger.Table.{Table, select_entries, start_ledger}
use atrade.Ledger.Rules.{
  OrderSide, OpenOrder, OrderRefusal, sum_open_sells, check_sell, check_owner_order,
}
use atrade.Ledger.Refusals.{check_sell-held}
use atrade.Orders.{OrderRefs}
use atrade.SplitChecks.{is_in_state}
use atrade.ByHand.{
  OrderByHand, Answers, Tables, start_with, entries_or_start, read_entries, record_fills,
  select_own_orders, owner_order, check_with, check_order,
}
use atrade.ByHand.NeededChecks.{
  any-IsSplitNeeded, IsSplitNeeded-any, check_owner_order-other, IsSplitNeeded,
}

module _ (answers : Answers) (account : String) (table : Table) where
  start_with-entries :
      (cash : Option _) (es : List LedgerEntry)
      → (start_with answers account table cash).1 ≡ some es
      → es ≡ select_entries (start_with answers account table cash).0 account
  start_with-entries none es h = absurd (none-ne-some es h)
  start_with-entries (some cash) es h =
      let started = start_ledger table account answers.positions cash answers.now_utc in
      of_some (λ (l : List LedgerEntry). l ≡ select_entries started account) h refl

  entries_or_start-entries :
      (known es : List LedgerEntry)
      → known ≡ select_entries table account
      → (entries_or_start answers account table known).1 ≡ some es
      → es ≡ select_entries (entries_or_start answers account table known).0 account
  entries_or_start-entries [] es same h = start_with-entries answers.cash_usd es h
  entries_or_start-entries (e ∷ known) es same h =
      of_some (λ (l : List LedgerEntry). l ≡ select_entries table account) h same

  -- The entries that `read_entries` gives are those of the table that it leaves.
  read_entries-select_entries :
      (es : List LedgerEntry)
      → (read_entries answers account table).1 ≡ some es
      → es ≡ select_entries (read_entries answers account table).0 account
  unfolding read_entries
  read_entries-select_entries es h =
      entries_or_start-entries (select_entries table account) es refl h

no_refusal : {A : Type 0} (r : A) → some (some r) ≡ some none → ⊥
no_refusal {A} r h = none-ne-some r (sym (of_some (λ (o : Option A). some r ≡ o) h refl))

module _ (decimals : Decimals) (answers : Answers) (account : String) (refs : OrderRefs)
    (tables : Tables) (order : OrderByHand) where
  check_with-refused :
      (entries : Option (List LedgerEntry))
      → any (is_in_state account order.instrument) tables.checks ≡ true
      → (r : OrderRefusal) × (check_with decimals answers account refs tables order entries
          ≡ some (some r))
  check_with-refused none h = (OrderRefusal.ledger_not_started, refl)
  check_with-refused (some entries) h =
      (OrderRefusal.split_check_needed order.instrument.symbol, rw h refl)

  check_with-needed :
      (entries : Option (List LedgerEntry)) (symbol : String)
      → check_with decimals answers account refs tables order entries
        ≡ some (some (OrderRefusal.split_check_needed symbol))
      → any (is_in_state account order.instrument) tables.checks ≡ true
  check_with-needed none symbol h = absurd (ground arith)
  check_with-needed (some entries) symbol h =
      elim (Bool-cases (any (is_in_state account order.instrument) tables.checks)) [
        | inl in_state ↦ in_state
        | inr free ↦
            let (open_orders, e, p) =
              bind-eq-some answers.open_orders
                (λ open_orders.
                  check_owner_order decimals answers.amounts entries
                    (select_own_orders decimals answers account refs open_orders)
                    (owner_order decimals answers account refs order))
                (some (OrderRefusal.split_check_needed symbol)) (rw free at h) in
            absurd (
              check_owner_order-other decimals answers.amounts entries
                (select_own_orders decimals answers account refs open_orders)
                (owner_order decimals answers account refs order) symbol p)
      ]

  -- An order by hand gets a refusal, whatever IB Gateway answers, when its account has a split check of
  -- its instrument with the status "needed". The refusal "split check needed" is given only then.
  pub check_order-refused :
      (IsSplitNeeded account order.instrument tables.checks
        → (r : OrderRefusal) × ((check_order decimals answers account refs tables order).1
            ≡ some (some r)))
      × ((symbol : String)
          → (check_order decimals answers account refs tables order).1
            ≡ some (some (OrderRefusal.split_check_needed symbol))
          → IsSplitNeeded account order.instrument tables.checks)
  unfolding check_order
  check_order-refused = (
    λ needed.
        check_with-refused _ (any-IsSplitNeeded account order.instrument tables.checks needed),
    λ symbol h.
        IsSplitNeeded-any account order.instrument tables.checks (check_with-needed _ symbol h),
  )

  check_with-passed :
      (entries : Option (List LedgerEntry))
      → order.side ≡ OrderSide.sell
      → check_with decimals answers account refs tables order entries ≡ some none
      → (es : List LedgerEntry) × (open_orders : List OpenOrder) × (entries ≡ some es)
        × (answers.open_orders ≡ some open_orders)
        × (order.quantity
              +ℤ sum_open_sells order.instrument
                  (select_own_orders decimals answers account refs open_orders)
            ≤ℤ held (by_hand, order.instrument) es)
  unfolding check_owner_order
  check_with-passed none side h = absurd (no_refusal _ h)
  check_with-passed (some es) side h =
      elim (Bool-cases (any (is_in_state account order.instrument) tables.checks)) [
        | inl in_state ↦ absurd (no_refusal _ (rw in_state at h))
        | inr free ↦
            let (open_orders, e, p) =
              bind-eq-some answers.open_orders
                (λ open_orders.
                  check_owner_order decimals answers.amounts es
                    (select_own_orders decimals answers account refs open_orders)
                    (owner_order decimals answers account refs order))
                none (rw free at h) in
            let sold : some (
                  check_sell decimals es
                    (select_own_orders decimals answers account refs open_orders)
                    (owner_order decimals answers account refs order))
                ≡ some none =
              rw side at p in
            (
              es,
              open_orders,
              refl,
              e,
              (check_sell-held decimals es
                    (select_own_orders decimals answers account refs open_orders)
                    (owner_order decimals answers account refs order)).0
                  (of_some
                    (λ (o : Option OrderRefusal).
                      check_sell decimals es
                        (select_own_orders decimals answers account refs open_orders)
                        (owner_order decimals answers account refs order)
                      ≡ o)
                    sold refl),
            )
      ]

  -- A sell order by hand that passes its check: IB Gateway gave the open orders, and "By hand" holds, in
  -- the ledger after the check, the quantity of the order and that of its own open sell orders for the
  -- same symbol and currency.
  pub check_order-held :
      order.side ≡ OrderSide.sell
      → (check_order decimals answers account refs tables order).1 ≡ some none
      → (open_orders : List OpenOrder) × (answers.open_orders ≡ some open_orders)
        × (order.quantity
              +ℤ sum_open_sells order.instrument
                  (select_own_orders decimals answers account refs open_orders)
            ≤ℤ held
                (by_hand, order.instrument)
                (select_entries (check_order decimals answers account refs tables order).0 account))
  unfolding check_order
  check_order-held side h =
      let (es, open_orders, e, given, enough) = check_with-passed _ side h in
      let table = record_fills decimals answers account tables in
      (open_orders, given, rw (← read_entries-select_entries answers account table es e) enough)
