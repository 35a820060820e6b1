-- ===== src/Ledger/Refusals.antt =====
-- What an order that the ledger accepts leaves to its owner.
use Prim.Native.String.{String}
use package.text.Mathlib.Text.{◌==◌ as str_eq}
use atrade.Prelude.{
  ℕ, ◌≡◌, refl, ◌↔◌, false, List, [], ◌∷◌, Option, none, some, arith, if◌then◌else◌, ◌>>=◌, leb,
  leb→le, ◌≤◌, ◌+◌, Bool-cases, Option-cases, inl, inr, ◌∙◌,
}
use atrade.Prelude.Int.{ℤ, pos, ◌+ℤ◌, ◌-ℤ◌, ◌≤ℤ◌, leb_ℤ, pos_part, neg_part, int_laws}
use atrade.Ledger.{
  Instrument, Owner, LedgerEntry, OwnerPosition, Decimals, same_key, sum_owner_positions,
  sum_owner_cash_usd,
}
use atrade.Ledger.Keys.{same_owner-sym, same_instrument-sym}
use atrade.Ledger.Sums.{held, position_quantity, sum_owner_positions-held}
use atrade.Ledger.Rules.{
  sell_more_than_position, buy_more_than_cash, OpenOrder, Amounts, LedgerOrder, find_amount_usd,
  find_order_instrument, summed, unknown, sum_open_buys, check_buy_after, check_buy, find_position,
  sum_open_sells, check_sell,
}

find_position-position_quantity :
    (o : Owner) (i : Instrument) (ps : List OwnerPosition)
    → find_position o i ps ≡ position_quantity (o, i) ps
unfolding find_position same_key
find_position-position_quantity o i [] = refl
find_position-position_quantity o i (p ∷ ps) =
    rw
      (
        same_owner-sym p.owner o,
        same_instrument-sym p.instrument i,
        find_position-position_quantity o i ps,
      )
      refl

-- The comparison at the end of a check.
accepted_iff :
    {A : Type 0} (refusal : A) (have_amount open_amount amount : ℤ)
    → ((if leb_ℤ amount (have_amount -ℤ open_amount) then none else some refusal) ≡ none)
      ↔ (amount +ℤ open_amount ≤ℤ have_amount)
accepted_iff refusal h o a = elim (Bool-cases (leb_ℤ a (h -ℤ o))) [
  | inl enough ↦ rw enough (
    (λ _. omega (
      int_laws,
      leb→le (pos_part a + neg_part (h -ℤ o)) (pos_part (h -ℤ o) + neg_part a) enough,
    )),
    (λ _. refl),
  )
  | inr short ↦ rw short (
    (λ e. absurd (ground arith)),
    (λ le. absurd (
        too_little (pos_part a + neg_part (h -ℤ o)) (pos_part (h -ℤ o) + neg_part a)
          (omega int_laws) short)),
  )
]
  where
    too_little : (m n : ℕ) → m ≤ n → leb m n ≡ false → ⊥
    too_little m n p q = ground arith

-- A sell order is accepted exactly when the owner holds its quantity and that of the open sell orders
-- of the owner for the same symbol and currency.
pub check_sell-held :
    (decimals : Decimals) (entries : List LedgerEntry) (open_orders : List OpenOrder)
    (order : LedgerOrder)
    → (check_sell decimals entries open_orders order ≡ none) ↔ (
        order.quantity +ℤ sum_open_sells order.instrument open_orders
        ≤ℤ held (order.owner, order.instrument) entries)
unfolding check_sell
check_sell-held decimals entries open_orders order =
    let positions = sum_owner_positions decimals entries in
    let position : find_position order.owner order.instrument positions
        ≡ held (order.owner, order.instrument) entries =
      find_position-position_quantity order.owner order.instrument positions
      ∙ (sum_owner_positions-held decimals (order.owner, order.instrument) entries).0 in
    rw position (
      accepted_iff
        (sell_more_than_position (held (order.owner, order.instrument) entries)
          (sum_open_sells order.instrument open_orders) order.quantity)
        (held (order.owner, order.instrument) entries) (sum_open_sells order.instrument open_orders)
        order.quantity)

module _ (decimals : Decimals) (amounts : Amounts) (entries : List LedgerEntry)
    (order : LedgerOrder) where
  -- What the open buy orders of the list can cost: each at its limit price, or at the last close of
  -- its instrument.
  abbrev pub open_buys_amount : List OpenOrder → Option ℤ
  open_buys_amount [] = some (pos 0)
  open_buys_amount (o ∷ orders) =
      if str_eq o.side "BUY"
      then (find_order_instrument decimals amounts entries o order >>= λ instrument.
          find_amount_usd decimals amounts instrument (o.quantity -ℤ o.filled_quantity)
            o.limit_price
          >>= λ amount. open_buys_amount orders >>= λ rest. some (amount +ℤ rest))
      else open_buys_amount orders

  not_summed : {symbol : String} {s : ℤ} → some (unknown symbol) ≡ some (summed s) → ⊥
  not_summed h = ground arith

  sum_open_buys-summed :
      (orders : List OpenOrder) (total s : ℤ)
      → sum_open_buys decimals amounts entries order orders total ≡ some (summed s)
      → (rest : ℤ) × (open_buys_amount orders ≡ some rest) × (s ≡ total +ℤ rest)
  unfolding sum_open_buys
  sum_open_buys-summed [] total s h =
      let same : total ≡ s = cc in (pos 0, refl, rw (← same) (omega int_laws))
  sum_open_buys-summed (o ∷ orders) total s h = elim (Bool-cases (str_eq o.side "BUY")) [
    | inr other ↦ rw other (sum_open_buys-summed orders total s (rw other at h))
    | inl bought ↦ elim (Option-cases (find_order_instrument decimals amounts entries o order)) [
      | inl lost ↦ absurd (not_summed (rw (bought, lost) at h))
      | inr (instrument, found) ↦
          elim (Option-cases (
            find_amount_usd decimals amounts instrument (o.quantity -ℤ o.filled_quantity)
              o.limit_price)) [
                | inl failed ↦ absurd (no_amount (rw (bought, found, failed) at h))
                | inr (amount, known) ↦
                    rw (bought, found, known)
                      (add_amount amount (
                        sum_open_buys-summed orders (total +ℤ amount) s
                          (rw (bought, found, known) at h)))
              ]
    ]
  ]
    where
      no_amount : {A : Type 0} {a : A} → none ≡ some a → ⊥
      no_amount e = ground arith

      add_amount :
          (amount : ℤ)
          → (rest : ℤ) × (open_buys_amount orders ≡ some rest) × (s ≡ total +ℤ amount +ℤ rest)
          → (all : ℤ) × ((open_buys_amount orders >>= λ rest. some (amount +ℤ rest)) ≡ some all)
            × (s ≡ total +ℤ all)
      add_amount amount (rest, here, sum) = (amount +ℤ rest, rw here refl, rw sum (omega int_laws))

  -- The amount of a buy order that is accepted is known, and with the amounts of the open buy orders
  -- it is at most the cash of the owner.
  pub check_buy-cash :
      (open_orders : List OpenOrder)
      → check_buy decimals amounts entries open_orders order ≡ some none
      → (amount : ℤ) × (open_amount : ℤ) × (find_amount_usd decimals amounts order.instrument
            order.quantity order.limit_price
          ≡ some amount)
        × (open_buys_amount open_orders ≡ some open_amount)
        × (amount +ℤ open_amount ≤ℤ sum_owner_cash_usd entries order.owner)
  unfolding check_buy check_buy_after
  check_buy-cash open_orders h =
      elim (Option-cases (sum_open_buys decimals amounts entries order open_orders (pos 0))) [
        | inl failed ↦ absurd (no_answer (rw failed at h))
        | inr (unknown symbol, lost) ↦ absurd (refused (rw lost at h))
        | inr (summed s, all) ↦
            elim (Option-cases (
              find_amount_usd decimals amounts order.instrument order.quantity order.limit_price)) [
                | inl failed ↦ absurd (no_answer (rw (all, failed) at h))
                | inr (amount, known) ↦
                    let (rest, here, sum) = sum_open_buys-summed open_orders (pos 0) s all in
                    let same : rest ≡ s = rw sum (omega int_laws) in
                    (
                      amount,
                      rest,
                      known,
                      here,
                      rw same (
                          (accepted_iff
                              (buy_more_than_cash (sum_owner_cash_usd entries order.owner) s amount)
                              (sum_owner_cash_usd entries order.owner) s amount).0
                            (accepted (rw (all, known) at h))),
                    )
              ]
      ]
    where
      no_answer : {A : Type 0} {a : A} → none ≡ some a → ⊥
      no_answer e = ground arith

      refused : {A : Type 0} {a : A} → some (some a) ≡ some none → ⊥
      refused e = ground arith

      accepted : {A : Type 0} {o : Option A} → some o ≡ some none → o ≡ none
      accepted e = ground arith
