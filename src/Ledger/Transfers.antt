-- ===== src/Ledger/Transfers.antt =====
-- What one transfer of the ledger moves.
use Prim.Native.String.{String}
use package.text.Mathlib.Text.{◌==◌ as str_eq}
use text.Mathlib.TextPositions.{eq_refl}
use atrade.Prelude.{
  ℕ, ◌≡◌, refl, Bool, true, false, ◌&&◌, List, [], ◌∷◌, ◌++◌, if◌then◌else◌, Bool-cases, inl, inr,
  ◌∙◌, ap,
}
use atrade.Prelude.Int.{ℤ, pos, ◌+ℤ◌, ◌-ℤ◌, int_laws}
use atrade.Ledger.{
  Instrument, Owner, by_hand, LedgerEntry, transfer, OwnerPosition, Key, same_key, same_owner,
  same_instrument, sum_owner_cash_usd,
}
use atrade.Ledger.Keys.{same_owner-sym}
use atrade.Ledger.Sums.{held}
use atrade.Ledger.Table.{
  Table, select_entries, plain_row, cash_entry, position_entry, insert_cash_transfer,
  insert_position_transfer,
}

pub select_entries-append :
    (account : String) (t u : Table)
    → select_entries (t ++ u) account ≡ select_entries t account ++ select_entries u account
unfolding select_entries
select_entries-append account [] u = refl
select_entries-append account (row ∷ t) u = elim (Bool-cases (str_eq row.account account)) [
  | inl same ↦ rw (same, select_entries-append account t u) refl
  | inr other ↦ rw (other, select_entries-append account t u) refl
]

pub held-append : (k : Key) (xs ys : List LedgerEntry) → held k (xs ++ ys) ≡ held k xs +ℤ held k ys
held-append k [] ys = omega int_laws
held-append k (e ∷ xs) ys = rw (held-append k xs ys) (omega int_laws)

pub cash-append :
    (o : Owner) (xs ys : List LedgerEntry)
    → sum_owner_cash_usd (xs ++ ys) o ≡ sum_owner_cash_usd xs o +ℤ sum_owner_cash_usd ys o
unfolding sum_owner_cash_usd
cash-append o [] ys = omega int_laws
cash-append o (e ∷ xs) ys = rw (cash-append o xs ys) (omega int_laws)

own_rows :
    (account : String) (a b : LedgerEntry)
    → select_entries (plain_row account a ∷ plain_row account b ∷ []) account ≡ a ∷ b ∷ []
unfolding select_entries
own_rows account a b = rw (eq_refl account) refl

-- The account's entries after two rows of its own.
two_rows :
    (account : String) (t : Table) (a b : LedgerEntry)
    → select_entries (t ++ plain_row account a ∷ plain_row account b ∷ []) account
      ≡ select_entries t account ++ a ∷ b ∷ []
two_rows account t a b =
    select_entries-append account t (plain_row account a ∷ plain_row account b ∷ [])
    ∙ ap (λ (es : List LedgerEntry). select_entries t account ++ es) (own_rows account a b)

-- One owner pays an amount and another gets it.
pay :
    (x y z : Bool) (h q : ℤ)
    → h +ℤ ((if x && z then pos 0 -ℤ q else pos 0) +ℤ ((if y && z then q else pos 0) +ℤ pos 0))
      ≡ h
        +ℤ (if y then (if z then q else pos 0) else pos 0)
        -ℤ (if x then (if z then q else pos 0) else pos 0)
pay true true true h q = omega int_laws
pay true true false h q = omega int_laws
pay true false true h q = omega int_laws
pay true false false h q = omega int_laws
pay false true true h q = omega int_laws
pay false true false h q = omega int_laws
pay false false true h q = omega int_laws
pay false false false h q = omega int_laws

nothing :
    (x y : Bool) (h : ℤ)
    → h +ℤ ((if x then pos 0 else pos 0) +ℤ ((if y then pos 0 else pos 0) +ℤ pos 0)) ≡ h
nothing true true h = omega int_laws
nothing true false h = omega int_laws
nothing false true h = omega int_laws
nothing false false h = omega int_laws

cash_pay :
    (x y : Bool) (h q : ℤ)
    → h +ℤ ((if x then pos 0 -ℤ q else pos 0) +ℤ ((if y then q else pos 0) +ℤ pos 0))
      ≡ h +ℤ (if y then q else pos 0) -ℤ (if x then q else pos 0)
cash_pay true true h q = omega int_laws
cash_pay true false h q = omega int_laws
cash_pay false true h q = omega int_laws
cash_pay false false h q = omega int_laws

-- The amount where an owner is the given one.
abbrev pub at_owner : Owner → Owner → ℤ → ℤ
at_owner o owner amount = if same_owner o owner then amount else pos 0

-- What one part of the ledger has after all that `owner` has went to "By hand".
abbrev pub moved : Owner → Owner → ℤ → ℤ → ℤ
moved o owner before amount = before +ℤ at_owner o by_hand amount -ℤ at_owner o owner amount

module _ (account : String) where
  pub held-insert_position_transfer :
      (t : Table) (owner : Owner) (p : OwnerPosition) (time : ℕ) (o : Owner) (i : Instrument)
      → held
          (o, i)
          (select_entries (insert_position_transfer t account owner by_hand p time) account)
        ≡ moved o owner
            (held (o, i) (select_entries t account))
            (if same_instrument i p.instrument then p.quantity else pos 0)
  unfolding insert_position_transfer same_key
  held-insert_position_transfer t owner p time o i =
      let a =
        position_entry owner transfer time p.instrument (pos 0 -ℤ p.quantity) p.average_cost in
      let b = position_entry by_hand transfer time p.instrument p.quantity p.average_cost in
      rw (two_rows account t a b, held-append (o, i) (select_entries t account) (a ∷ b ∷ []))
        (pay (same_owner o owner) (same_owner o by_hand) (same_instrument i p.instrument)
          (held (o, i) (select_entries t account)) p.quantity)

  pub cash-insert_position_transfer :
      (t : Table) (owner : Owner) (p : OwnerPosition) (time : ℕ) (o : Owner)
      → sum_owner_cash_usd
          (select_entries (insert_position_transfer t account owner by_hand p time) account)
          o
        ≡ sum_owner_cash_usd (select_entries t account) o
  unfolding insert_position_transfer sum_owner_cash_usd
  cash-insert_position_transfer t owner p time o =
      let a =
        position_entry owner transfer time p.instrument (pos 0 -ℤ p.quantity) p.average_cost in
      let b = position_entry by_hand transfer time p.instrument p.quantity p.average_cost in
      rw (two_rows account t a b, cash-append o (select_entries t account) (a ∷ b ∷ []))
        (nothing (same_owner owner o) (same_owner by_hand o)
          (sum_owner_cash_usd (select_entries t account) o))

  pub held-insert_cash_transfer :
      (t : Table) (owner : Owner) (cash : ℤ) (time : ℕ) (k : Key)
      → held k (select_entries (insert_cash_transfer t account owner by_hand cash time) account)
        ≡ held k (select_entries t account)
  unfolding insert_cash_transfer
  held-insert_cash_transfer t owner cash time k =
      let a = cash_entry owner transfer time (pos 0 -ℤ cash) in
      let b = cash_entry by_hand transfer time cash in
      rw (two_rows account t a b, held-append k (select_entries t account) (a ∷ b ∷ []))
        (omega int_laws)

  pub cash-insert_cash_transfer :
      (t : Table) (owner : Owner) (cash : ℤ) (time : ℕ) (o : Owner)
      → sum_owner_cash_usd
          (select_entries (insert_cash_transfer t account owner by_hand cash time) account)
          o
        ≡ moved o owner (sum_owner_cash_usd (select_entries t account) o) cash
  unfolding insert_cash_transfer sum_owner_cash_usd
  cash-insert_cash_transfer t owner cash time o =
      let a = cash_entry owner transfer time (pos 0 -ℤ cash) in
      let b = cash_entry by_hand transfer time cash in
      rw (two_rows account t a b, cash-append o (select_entries t account) (a ∷ b ∷ []))
        (rw (same_owner-sym owner o, same_owner-sym by_hand o)
          (cash_pay (same_owner o owner) (same_owner o by_hand)
            (sum_owner_cash_usd (select_entries t account) o) cash))
