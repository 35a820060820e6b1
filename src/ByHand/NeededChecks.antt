-- ===== src/ByHand/NeededChecks.antt =====
-- The split checks of an instrument that are needed, and the rules of an owner that do not read them.
use Prim.Native.String.{String}
use package.text.Mathlib.Text.{◌==◌ as str_eq}
use text.Mathlib.TextEquality.{eq_iff}
use mathlib.Core.List.{Memᴰ}
use atrade.Prelude.{
  ◌≡◌, refl, true, any, List, [], ◌∷◌, Option, some, Bool-cases, inl, inr, bind-eq-some, of_some,
  and_both, arith,
}
use atrade.Prelude.Int.{ℤ, pos}
use atrade.Ledger.{LedgerEntry, Decimals, Instrument, same_instrument, sum_owner_cash_usd}
use atrade.Ledger.Keys.{same_instrument-eq}
use atrade.Ledger.Rules.{
  Amounts, LedgerOrder, OpenBuys, unknown, summed, sell, buy, OrderSide, OpenOrder, OrderRefusal,
  sum_open_buys, check_sell, check_buy, check_buy_after, compare_cash, find_amount_usd,
  check_owner_order,
}
use atrade.SplitChecks.{SplitCheck, SplitCheckStatus, is_needed, is_in_state}

-- The account has a split check of the instrument that is needed.
abbrev pub IsSplitNeeded : String → Instrument → List SplitCheck → Type 0
IsSplitNeeded account instrument checks =
    (check : SplitCheck) × Memᴰ check checks
    × (check.status ≡ SplitCheckStatus.needed)
    × (check.account ≡ account)
    × (check.instrument ≡ instrument)

needed_status : (s : SplitCheckStatus) → is_needed s ≡ true → s ≡ SplitCheckStatus.needed
needed_status SplitCheckStatus.needed h = refl
needed_status SplitCheckStatus.applied h = absurd (ground arith)
needed_status SplitCheckStatus.kept h = absurd (ground arith)

is_in_state-parts :
    (account : String) (instrument : Instrument) (check : SplitCheck)
    → is_in_state account instrument check ≡ true
    → (check.status ≡ SplitCheckStatus.needed)
      × (check.account ≡ account)
      × (check.instrument ≡ instrument)
unfolding is_in_state
is_in_state-parts account instrument check h =
    let (needed, rest) = and_both (is_needed check.status) _ h in
    let (a, i) =
      and_both (str_eq check.account account) (same_instrument check.instrument instrument) rest in
    (
      needed_status check.status needed,
      (eq_iff check.account account).0 a,
      same_instrument-eq check.instrument instrument i,
    )

is_in_state-own :
    (account : String) (instrument : Instrument) (check : SplitCheck)
    → check.status ≡ SplitCheckStatus.needed
    → check.account ≡ account
    → check.instrument ≡ instrument
    → is_in_state account instrument check ≡ true
unfolding is_in_state same_instrument
is_in_state-own account instrument check s a i =
    rw
      (
        s,
        a,
        i,
        (eq_iff account account).1 refl,
        (eq_iff instrument.symbol instrument.symbol).1 refl,
        (eq_iff instrument.exchange instrument.exchange).1 refl,
        (eq_iff instrument.currency instrument.currency).1 refl,
      )
      refl

pub any-IsSplitNeeded :
    (account : String) (instrument : Instrument) (checks : List SplitCheck)
    → IsSplitNeeded account instrument checks
    → any (is_in_state account instrument) checks ≡ true
any-IsSplitNeeded account instrument [] (check, m, s, a, i) = elim m [ ]
any-IsSplitNeeded account instrument (c ∷ checks) (check, Memᴰ.head e, s, a, i) =
    rw (← e, is_in_state-own account instrument check s a i) refl
any-IsSplitNeeded account instrument (c ∷ checks) (check, Memᴰ.tail m, s, a, i) =
    elim (Bool-cases (is_in_state account instrument c)) [
      | inl hit ↦ rw hit refl
      | inr miss ↦ rw (miss, any-IsSplitNeeded account instrument checks (check, m, s, a, i)) refl
    ]

pub IsSplitNeeded-any :
    (account : String) (instrument : Instrument) (checks : List SplitCheck)
    → any (is_in_state account instrument) checks ≡ true
    → IsSplitNeeded account instrument checks
IsSplitNeeded-any account instrument [] h = absurd (ground arith)
IsSplitNeeded-any account instrument (c ∷ checks) h =
    elim (Bool-cases (is_in_state account instrument c)) [
      | inl hit ↦
          let (s, a, i) = is_in_state-parts account instrument c hit in (c, Memᴰ.head refl, s, a, i)
      | inr miss ↦
          let (check, m, s, a, i) = IsSplitNeeded-any account instrument checks (rw miss at h) in
          (check, Memᴰ.tail m, s, a, i)
    ]

compare_cash-other :
    (cash opened amount : ℤ) (symbol : String)
    → compare_cash cash opened amount ≡ some (OrderRefusal.split_check_needed symbol)
    → ⊥
compare_cash-other cash opened amount symbol h = ground arith

-- The rules of an owner give no refusal for a split check.
pub check_owner_order-other :
    (decimals : Decimals) (amounts : Amounts) (entries : List LedgerEntry) (opened : List OpenOrder)
    (order : LedgerOrder) (symbol : String)
    → check_owner_order decimals amounts entries opened order
      ≡ some (some (OrderRefusal.split_check_needed symbol))
    → ⊥
unfolding check_owner_order check_sell check_buy check_buy_after
check_owner_order-other decimals amounts entries opened order symbol h = go order.side h
  where
    bought :
        (o : OpenBuys)
        → check_buy_after decimals amounts entries order o
          ≡ some (some (OrderRefusal.split_check_needed symbol))
        → ⊥
    bought (unknown s) k = ground arith
    bought (summed total) k =
        let (amount, e, p) =
          bind-eq-some
            (find_amount_usd decimals amounts order.instrument order.quantity order.limit_price)
            (λ amount. some (compare_cash (sum_owner_cash_usd entries order.owner) total amount))
            (some (OrderRefusal.split_check_needed symbol)) k in
        compare_cash-other (sum_owner_cash_usd entries order.owner) total amount symbol (
          of_some
            (λ (r : Option OrderRefusal).
              compare_cash (sum_owner_cash_usd entries order.owner) total amount ≡ r)
            p refl)

    go :
        (side : OrderSide)
        → (elim side [
          | sell ↦ some (check_sell decimals entries opened order)
          | buy ↦ check_buy decimals amounts entries opened order
        ])
          ≡ some (some (OrderRefusal.split_check_needed symbol))
        → ⊥
    go OrderSide.sell k = ground arith
    go OrderSide.buy k =
        let (o, e, p) =
          bind-eq-some (sum_open_buys decimals amounts entries order opened (pos 0))
            (check_buy_after decimals amounts entries order)
            (some (OrderRefusal.split_check_needed symbol)) k in
        bought o p
