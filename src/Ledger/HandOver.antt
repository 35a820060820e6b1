-- ===== src/Ledger/HandOver.antt =====
-- `transfer_to_by_hand` on the entries of one account: all that the owner has moves.
use Prim.Native.String.{String}
use atrade.Prelude.{
  ℕ, ◌≡◌, refl, Bool, true, false, List, [], ◌∷◌, if◌then◌else◌, Bool-cases, inl, inr, ◌∙◌,
}
use atrade.Prelude.Int.{ℤ, pos, ◌+ℤ◌, ◌-ℤ◌, is_zero, is_zero-eq, int_laws}
use atrade.Ledger.{
  Instrument, Owner, by_hand, LedgerEntry, OwnerPosition, Decimals, Key, same_key, same_owner,
  same_instrument, sum_owner_positions, sum_owner_cash_usd,
}
use atrade.Ledger.Keys.{same_owner-sym}
use atrade.Ledger.Sums.{held, position_quantity, sum_owner_positions-held}
use atrade.Ledger.Table.{
  Table, select_entries, insert_position_transfer, transfer_positions, transfer_cash, transfer_all,
}
use atrade.Ledger.Transfers.{
  moved, held-insert_position_transfer, cash-insert_position_transfer, held-insert_cash_transfer,
  cash-insert_cash_transfer,
}

module _ (account : String) where
  -- The amounts of one position and of the rest move together.
  moved_both :
      (o owner : Owner) (before a b : ℤ)
      → moved o owner (moved o owner before a) b ≡ moved o owner before (a +ℤ b)
  moved_both o owner before a b = go (same_owner o by_hand) (same_owner o owner)
    where
      go :
          (x y : Bool)
          → (before +ℤ (if x then a else pos 0) -ℤ (if y then a else pos 0))
              +ℤ (if x then b else pos 0)
              -ℤ (if y then b else pos 0)
            ≡ before +ℤ (if x then a +ℤ b else pos 0) -ℤ (if y then a +ℤ b else pos 0)
      go true true = omega int_laws
      go true false = omega int_laws
      go false true = omega int_laws
      go false false = omega int_laws

  moved_none : (o owner : Owner) (before : ℤ) → before ≡ moved o owner before (pos 0)
  moved_none o owner before = go (same_owner o by_hand) (same_owner o owner)
    where
      go :
          (x y : Bool)
          → before ≡ before +ℤ (if x then pos 0 else pos 0) -ℤ (if y then pos 0 else pos 0)
      go true true = omega int_laws
      go true false = omega int_laws
      go false true = omega int_laws
      go false false = omega int_laws

  held-transfer_positions :
      (t : Table) (owner : Owner) (ps : List OwnerPosition) (time : ℕ) (o : Owner) (i : Instrument)
      → held (o, i) (select_entries (transfer_positions t account owner ps time) account)
        ≡ moved o owner (held (o, i) (select_entries t account)) (position_quantity (owner, i) ps)
  unfolding transfer_positions same_key
  held-transfer_positions t owner [] time o i =
      moved_none o owner (held (o, i) (select_entries t account))
  held-transfer_positions t owner (p ∷ ps) time o i = elim (Bool-cases (same_owner owner p.owner)) [
    | inl own ↦
        rw
          (
            own,
            same_owner-sym p.owner owner ∙ own,
            held-transfer_positions (insert_position_transfer t account owner by_hand p time) owner
                ps time o i,
            held-insert_position_transfer account t owner p time o i,
          )
          (moved_both o owner (held (o, i) (select_entries t account))
            (if same_instrument i p.instrument then p.quantity else pos 0)
            (position_quantity (owner, i) ps))
    | inr foreign ↦
        let sum : pos 0 +ℤ position_quantity (owner, i) ps ≡ position_quantity (owner, i) ps =
          omega int_laws in
        rw
          (
            foreign,
            same_owner-sym p.owner owner ∙ foreign,
            held-transfer_positions t owner ps time o i,
            sum,
          )
          refl
  ]

  cash-transfer_positions :
      (t : Table) (owner : Owner) (ps : List OwnerPosition) (time : ℕ) (o : Owner)
      → sum_owner_cash_usd (select_entries (transfer_positions t account owner ps time) account) o
        ≡ sum_owner_cash_usd (select_entries t account) o
  unfolding transfer_positions
  cash-transfer_positions t owner [] time o = refl
  cash-transfer_positions t owner (p ∷ ps) time o = elim (Bool-cases (same_owner p.owner owner)) [
    | inl own ↦
        rw
          (
            own,
            cash-transfer_positions (insert_position_transfer t account owner by_hand p time) owner
                ps time o,
            cash-insert_position_transfer account t owner p time o,
          )
          refl
    | inr foreign ↦ rw (foreign, cash-transfer_positions t owner ps time o) refl
  ]

  held-transfer_cash :
      (t : Table) (owner : Owner) (cash : ℤ) (time : ℕ) (k : Key)
      → held k (select_entries (transfer_cash t account owner cash time) account)
        ≡ held k (select_entries t account)
  unfolding transfer_cash
  held-transfer_cash t owner cash time k = elim (Bool-cases (is_zero cash)) [
    | inl zero ↦ rw zero refl
    | inr more ↦ rw (more, held-insert_cash_transfer account t owner cash time k) refl
  ]

  cash-transfer_cash :
      (t : Table) (owner : Owner) (cash : ℤ) (time : ℕ) (o : Owner)
      → sum_owner_cash_usd (select_entries (transfer_cash t account owner cash time) account) o
        ≡ moved o owner (sum_owner_cash_usd (select_entries t account) o) cash
  unfolding transfer_cash
  cash-transfer_cash t owner cash time o = elim (Bool-cases (is_zero cash)) [
    | inl zero ↦
        rw (zero, is_zero-eq cash zero)
          (moved_none o owner (sum_owner_cash_usd (select_entries t account) o))
    | inr more ↦ rw (more, cash-insert_cash_transfer account t owner cash time o) refl
  ]

  module _ (decimals : Decimals) (t : Table) (owner : Owner) (time : ℕ) where
    abbrev before : List LedgerEntry
    before = select_entries t account

    abbrev after : List LedgerEntry
    after = select_entries (transfer_all decimals t account owner time) account

    -- All shares of the owner go to "By hand", and no other owner gains or loses shares.
    pub held-transfer_all :
        (o : Owner) (i : Instrument)
        → held (o, i) after ≡ moved o owner (held (o, i) before) (held (owner, i) before)
    unfolding transfer_all
    held-transfer_all o i =
        let positions = sum_owner_positions decimals before in
        let moved_table = transfer_positions t account owner positions time in
        rw
          (
            held-transfer_cash moved_table owner (sum_owner_cash_usd before owner) time (o, i),
            held-transfer_positions t owner positions time o i,
            (sum_owner_positions-held decimals (owner, i) before).0,
          )
          refl

    -- The same of the cash.
    pub cash-transfer_all :
        (o : Owner)
        → sum_owner_cash_usd after o
          ≡ moved o owner (sum_owner_cash_usd before o) (sum_owner_cash_usd before owner)
    unfolding transfer_all
    cash-transfer_all o =
        let positions = sum_owner_positions decimals before in
        let moved_table = transfer_positions t account owner positions time in
        rw
          (
            cash-transfer_cash moved_table owner (sum_owner_cash_usd before owner) time o,
            cash-transfer_positions t owner positions time o,
          )
          refl
