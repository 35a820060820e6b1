-- ===== src/Ledger/Stopped.antt =====
-- `transfer_to_by_hand` for a stopped forward test: it moves all that the test holds to "By hand",
-- once.
use Prim.Native.String.{String}
use atrade.Prelude.{
  ℕ, ◌≡◌, refl, false, List, [], ◌∷◌, ◌++◌, some, none, arith, if◌then◌else◌, Bool-cases, inl, inr,
  ◌∙◌, ap, Option-cases,
}
use atrade.Prelude.Int.{ℤ, pos, is_zero, int_laws}
use atrade.Ledger.{
  Instrument, Owner, by_hand, OwnerPosition, Decimals, same_key, same_owner, sum_owner_positions,
  sum_owner_cash_usd,
}
use atrade.Ledger.Keys.{same_owner-eq, same_owner_refl, same_key_refl}
use atrade.Ledger.Sums.{held, key_of, count_positions, sum_owner_positions-held}
use atrade.Ledger.Table.{
  Table, select_entries, select_owner_account, insert_cash_transfer, insert_position_transfer,
  create_forward_test_owner, transfer_positions, transfer_cash, transfer_all, transfer_to_by_hand,
}
use atrade.Ledger.Transfers.{moved}
use atrade.Ledger.HandOver.{held-transfer_all, cash-transfer_all}

-- The account of an owner does not change as rows come.
owner_account-append :
    (t u : Table) (owner : Owner) {account : String}
    → select_owner_account t owner ≡ some account
    → select_owner_account (t ++ u) owner ≡ some account
unfolding select_owner_account
owner_account-append [] u owner h = absurd (ground arith)
owner_account-append (row ∷ t) u owner h = elim (Bool-cases (same_owner row.entry.owner owner)) [
  | inl own ↦ rw own cc
  | inr foreign ↦ rw foreign (owner_account-append t u owner cc)
]

module _ (account : String) (owner : Owner) where
  account-transfer_positions :
      (t : Table) (ps : List OwnerPosition) (time : ℕ)
      → select_owner_account t owner ≡ some account
      → select_owner_account (transfer_positions t account owner ps time) owner ≡ some account
  unfolding transfer_positions insert_position_transfer
  account-transfer_positions t [] time h = h
  account-transfer_positions t (p ∷ ps) time h = elim (Bool-cases (same_owner p.owner owner)) [
    | inl own ↦ rw own (
        account-transfer_positions (insert_position_transfer t account owner by_hand p time) ps time
          (owner_account-append t _ owner h))
    | inr foreign ↦ rw foreign (account-transfer_positions t ps time h)
  ]

  account-transfer_cash :
      (t : Table) (cash : ℤ) (time : ℕ)
      → select_owner_account t owner ≡ some account
      → select_owner_account (transfer_cash t account owner cash time) owner ≡ some account
  unfolding transfer_cash insert_cash_transfer
  account-transfer_cash t cash time h = elim (Bool-cases (is_zero cash)) [
    | inl zero ↦ rw zero h
    | inr more ↦ rw more (owner_account-append t _ owner h)
  ]

  -- Without a position of the owner, nothing is written.
  transfer_positions-none :
      (t : Table) (ps : List OwnerPosition) (time : ℕ)
      → ((i : Instrument) → count_positions (owner, i) ps ≡ 0)
      → transfer_positions t account owner ps time ≡ t
  unfolding transfer_positions
  transfer_positions-none t [] time h = refl
  transfer_positions-none t (p ∷ ps) time h = elim (Bool-cases (same_owner p.owner owner)) [
    | inl own ↦ absurd (present (same_owner-eq p.owner owner own) (h p.instrument))
    | inr foreign ↦ rw foreign (transfer_positions-none t ps time (λ i. omega (arith, h i)))
  ]
    where
      present : p.owner ≡ owner → count_positions (owner, p.instrument) (p ∷ ps) ≡ 0 → ⊥
      present e c = ground (
        arith,
        same_key_refl (key_of p),
        ap (λ (o : Owner). same_key (o, p.instrument) (key_of p)) e,
      )

-- The shares and the cash that an owner has in an account.
abbrev pub shares : Table → String → Owner → Instrument → ℤ
shares t account o i = held (o, i) (select_entries t account)

abbrev pub cash : Table → String → Owner → ℤ
cash t account o = sum_owner_cash_usd (select_entries t account) o

module _ (decimals : Decimals) (table : Table) (id : ℕ) where
  abbrev test_owner : Owner
  test_owner = create_forward_test_owner id

  not_by_hand : same_owner test_owner by_hand ≡ false
  unfolding create_forward_test_owner same_owner
  not_by_hand = refl

  all_gone : (amount : ℤ) → moved test_owner test_owner amount amount ≡ pos 0
  all_gone amount = rw (not_by_hand, same_owner_refl test_owner) (omega int_laws)

  step :
      {account : String} (time : ℕ)
      → select_owner_account table test_owner ≡ some account
      → transfer_to_by_hand decimals table id time
        ≡ transfer_all decimals table account test_owner time
  unfolding transfer_to_by_hand
  step time h = rw (h, transfer_to_by_hand) refl

  -- A stopped forward test whose first entry is in `account` has no share and no cash there
  -- afterwards. "By hand" has its own and those of the forward test, and all other owners keep what
  -- they have.
  pub transfer_to_by_hand-moved :
      (time : ℕ) (account : String) (o : Owner) (i : Instrument)
      → select_owner_account table test_owner ≡ some account
      → let after = transfer_to_by_hand decimals table id time in
        (shares after account o i
          ≡ moved o test_owner (shares table account o i) (shares table account test_owner i))
        × (cash after account o
            ≡ moved o test_owner (cash table account o) (cash table account test_owner))
        × (shares after account test_owner i ≡ pos 0)
        × (cash after account test_owner ≡ pos 0)
  transfer_to_by_hand-moved time account o i h = rw (step time h) (
    held-transfer_all account decimals table test_owner time o i,
    cash-transfer_all account decimals table test_owner time o,
    held-transfer_all account decimals table test_owner time test_owner i
        ∙ all_gone (shares table account test_owner i),
    cash-transfer_all account decimals table test_owner time test_owner
        ∙ all_gone (cash table account test_owner),
  )

  transfer_to_by_hand-account :
      (time : ℕ) {account : String}
      → select_owner_account table test_owner ≡ some account
      → select_owner_account (transfer_to_by_hand decimals table id time) test_owner ≡ some account
  unfolding transfer_all
  transfer_to_by_hand-account time {account} h =
      let entries = select_entries table account in
      let positions = sum_owner_positions decimals entries in
      rw (step time h, transfer_all)
        (account-transfer_cash account test_owner
          (transfer_positions table account test_owner positions time)
          (sum_owner_cash_usd entries test_owner) time
          (account-transfer_positions account test_owner table positions time h))

-- With nothing left, `transfer_all` writes nothing.
transfer_all-none :
    (decimals : Decimals) (t : Table) (account : String) (owner : Owner) (time : ℕ)
    → ((i : Instrument) → held (owner, i) (select_entries t account) ≡ pos 0)
    → sum_owner_cash_usd (select_entries t account) owner ≡ pos 0
    → transfer_all decimals t account owner time ≡ t
unfolding transfer_all transfer_cash is_zero
transfer_all-none decimals t account owner time no_shares no_cash =
    let entries = select_entries t account in
    let none_left : (i : Instrument)
        → count_positions (owner, i) (sum_owner_positions decimals entries) ≡ 0 =
      λ i.
        (sum_owner_positions-held decimals (owner, i) entries).1
        ∙ ap (λ (z : ℤ). if is_zero z then 0 else 1) (no_shares i) in
    rw (no_cash) (
      transfer_positions-none account owner t (sum_owner_positions decimals entries) time none_left)

unknown_owner :
    (decimals : Decimals) (table : Table) (id time : ℕ)
    → select_owner_account table (create_forward_test_owner id) ≡ none
    → transfer_to_by_hand decimals table id time ≡ table
unfolding transfer_to_by_hand
unknown_owner decimals table id time h = rw (h, transfer_to_by_hand) refl

-- A second `transfer_to_by_hand` of the same forward test writes nothing.
pub transfer_to_by_hand-twice :
    (decimals : Decimals) (table : Table) (id first second : ℕ)
    → let moved_table = transfer_to_by_hand decimals table id first in
      transfer_to_by_hand decimals moved_table id second ≡ moved_table
transfer_to_by_hand-twice decimals table id first second =
    elim (Option-cases (select_owner_account table (create_forward_test_owner id))) [
      | inl unknown ↦
          rw (unknown_owner decimals table id first unknown)
            (unknown_owner decimals table id second unknown)
      | inr (account, known) ↦
          let after = transfer_to_by_hand decimals table id first in
          step decimals after id second (transfer_to_by_hand-account decimals table id first known)
          ∙ transfer_all-none decimals after account (create_forward_test_owner id) second
              (λ i. (transfer_to_by_hand-moved decimals table id first account by_hand i known).2)
              (transfer_to_by_hand-moved decimals table id first account by_hand
                (record { symbol = ""; exchange = ""; currency = "" }) known).3
    ]
