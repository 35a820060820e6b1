-- ===== src/Ledger/Sums.antt =====
-- The positions of `sum_owner_positions` are the sums of the entries, each owner and instrument once.
use atrade.Prelude.{
  ℕ, ◌+◌, ◌≤◌, ◌≡◌, refl, List, [], ◌∷◌, Option, none, some, arith, if◌then◌else◌, Bool-cases, inl,
  inr,
}
use atrade.Prelude.Int.{ℤ, pos, ◌+ℤ◌, is_zero, is_zero-eq, int_laws}
use atrade.Ledger.{
  Instrument, LedgerEntry, OwnerPosition, Decimals, Key, same_key, Amounts, get, instrument_of,
  add_at, add_entry, add_entries, list_positions, sum_owner_positions,
}
use atrade.Ledger.Keys.{same_key-eq, total_at, count_key, IsDict, get-put, nil-IsDict, put-IsDict}

-- The quantity that an entry adds to a key.
abbrev pub adds : Key → LedgerEntry → ℤ
adds k e = elim (instrument_of e) [
  | none ↦ pos 0
  | some i ↦ if same_key k (e.owner, i) then e.quantity_change else pos 0
]

-- The quantity that an owner holds of an instrument: the sum of the entries.
abbrev pub held : Key → List LedgerEntry → ℤ
held k [] = pos 0
held k (e ∷ entries) = adds k e +ℤ held k entries

abbrev pub key_of : OwnerPosition → Key
key_of p = (p.owner, p.instrument)

-- The sum of the quantities of the positions at a key, and their number.
abbrev pub position_quantity : Key → List OwnerPosition → ℤ
position_quantity k [] = pos 0
position_quantity k (p ∷ ps) =
    (if same_key k (key_of p) then p.quantity else pos 0) +ℤ position_quantity k ps

abbrev pub count_positions : Key → List OwnerPosition → ℕ
count_positions k [] = 0
count_positions k (p ∷ ps) = (if same_key k (key_of p) then 1 else 0) + count_positions k ps

module _ (decimals : Decimals) where
  get-add_at :
      (k j : Key) (e : LedgerEntry) (quantities costs : Amounts)
      → get k (add_at decimals e j (quantities, costs)).0
        ≡ get k quantities +ℤ (if same_key k j then e.quantity_change else pos 0)
  unfolding add_at
  get-add_at k j e qs cs = elim (Bool-cases (same_key k j)) [
    | inl same ↦
        rw (get-put k j (get j qs +ℤ e.quantity_change) qs, same, same_key-eq k j same) refl
    | inr other ↦ rw (get-put k j (get j qs +ℤ e.quantity_change) qs, other) (omega int_laws)
  ]

  get-add_entry :
      (k : Key) (e : LedgerEntry) (quantities costs : Amounts)
      → get k (add_entry decimals e (quantities, costs)).0 ≡ get k quantities +ℤ adds k e
  unfolding add_entry
  get-add_entry k e qs cs = go (instrument_of e)
    where
      go :
          (o : Option Instrument)
          → get k
              (elim o as (λ x. Amounts × Amounts) [
                | none ↦ (qs, cs)
                | some i ↦ add_at decimals e (e.owner, i) (qs, cs)
              ]).0
            ≡ get k qs +ℤ (elim o [
              | none ↦ pos 0
              | some i ↦ if same_key k (e.owner, i) then e.quantity_change else pos 0
            ])
      go none = omega int_laws
      go (some i) = get-add_at k (e.owner, i) e qs cs

  add_entry-IsDict :
      (e : LedgerEntry) (quantities costs : Amounts)
      → IsDict quantities
      → IsDict (add_entry decimals e (quantities, costs)).0
  unfolding add_entry add_at
  add_entry-IsDict e qs cs h = go (instrument_of e)
    where
      go :
          (o : Option Instrument)
          → IsDict
              (elim o as (λ x. Amounts × Amounts) [
                | none ↦ (qs, cs)
                | some i ↦ add_at decimals e (e.owner, i) (qs, cs)
              ]).0
      go none = h
      go (some i) = put-IsDict (e.owner, i) (get (e.owner, i) qs +ℤ e.quantity_change) qs h

  get-add_entries :
      (k : Key) (entries : List LedgerEntry) (state : Amounts × Amounts)
      → get k (add_entries decimals entries state).0 ≡ get k state.0 +ℤ held k entries
  unfolding add_entries
  get-add_entries k [] state = omega int_laws
  get-add_entries k (e ∷ entries) (qs, cs) =
      rw (get-add_entries k entries (add_entry decimals e (qs, cs)), get-add_entry k e qs cs)
        (omega int_laws)

  add_entries-IsDict :
      (entries : List LedgerEntry) (state : Amounts × Amounts)
      → IsDict state.0
      → IsDict (add_entries decimals entries state).0
  unfolding add_entries
  add_entries-IsDict [] state h = h
  add_entries-IsDict (e ∷ entries) (qs, cs) h =
      add_entries-IsDict entries (add_entry decimals e (qs, cs)) (add_entry-IsDict e qs cs h)

  gone : (k j : Key) (d : Amounts) → total_at k d ≡ total_at k ((j, pos 0) ∷ d)
  gone k j d = elim (Bool-cases (same_key k j)) [
    | inl same ↦ rw same (omega int_laws)
    | inr other ↦ rw other (omega int_laws)
  ]

  count_none : (k : Key) (d : Amounts) → count_key k d ≤ 0 → total_at k d ≡ pos 0
  count_none k [] h = refl
  count_none k ((j, v) ∷ d) h = elim (Bool-cases (same_key k j)) [
    | inl same ↦ absurd (ground arith)
    | inr other ↦ rw (other, count_none k d (ground arith)) (omega int_laws)
  ]

  position_quantity-list_positions :
      (k : Key) (costs quantities : Amounts)
      → position_quantity k (list_positions decimals costs quantities) ≡ total_at k quantities
  unfolding list_positions
  position_quantity-list_positions k cs [] = refl
  position_quantity-list_positions k cs ((j, v) ∷ d) = elim (Bool-cases (is_zero v)) [
    | inl zero ↦ rw (zero, position_quantity-list_positions k cs d, is_zero-eq v zero) (gone k j d)
    | inr more ↦ rw (more, position_quantity-list_positions k cs d) refl
  ]

  count_positions-list_positions :
      (k : Key) (costs quantities : Amounts)
      → count_key k quantities ≤ 1
      → count_positions k (list_positions decimals costs quantities)
        ≡ (if is_zero (total_at k quantities) then 0 else 1)
  unfolding list_positions is_zero
  count_positions-list_positions k cs [] h = refl
  count_positions-list_positions k cs ((j, v) ∷ d) h = elim (Bool-cases (same_key k j)) [
    | inl same ↦
        let nothing : total_at k d ≡ pos 0 = count_none k d (ground arith) in
        let rest = count_positions-list_positions k cs d (ground arith) in
        let sum : v +ℤ pos 0 ≡ v = omega int_laws in
        elim (Bool-cases (is_zero v)) [
          | inl zero ↦ rw (zero, same, rest, nothing, sum, zero) refl
          | inr more ↦ rw (more, same, rest, nothing, sum, more) refl
        ]
    | inr other ↦
        let rest = count_positions-list_positions k cs d (ground arith) in
        let sum : pos 0 +ℤ total_at k d ≡ total_at k d = omega int_laws in
        elim (Bool-cases (is_zero v)) [
          | inl zero ↦ rw (zero, other, rest, sum) refl
          | inr more ↦ rw (more, other, rest, sum) (omega arith)
        ]
  ]

  -- The positions of an owner in an instrument add up to the sum of its entries. There is 1 such
  -- position if the sum is not 0, and none if it is 0.
  pub sum_owner_positions-held :
      (k : Key) (entries : List LedgerEntry)
      → (position_quantity k (sum_owner_positions decimals entries) ≡ held k entries)
        × (count_positions k (sum_owner_positions decimals entries)
            ≡ (if is_zero (held k entries) then 0 else 1))
  unfolding sum_owner_positions get
  sum_owner_positions-held k entries =
      let (quantities, costs) = add_entries decimals entries ([], []) in
      let dict = add_entries-IsDict entries ([], []) nil-IsDict k in
      let sum : total_at k quantities ≡ held k entries =
        rw (dict.1, get-add_entries k entries ([], [])) (omega int_laws) in
      (
        rw (position_quantity-list_positions k costs quantities, sum) refl,
        rw (count_positions-list_positions k costs quantities dict.0, sum) refl,
      )
