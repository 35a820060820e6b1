-- ===== src/ForwardTests/Starts.antt =====
-- What the start of a forward test does: each of its results.
use Prim.Native.String.{String}
use atrade.Prelude.{
  ℕ, zero, suc, ◌+◌, ◌≤◌, ◌<◌, ◌≡◌, ◌⊎◌, refl, sym, true, false, List, [], ◌∷◌, ◌++◌, Option, none,
  some, ltb, arith, Bool-cases, inl, inr, of_some,
}
use mathlib.Core.Option.{none-ne-some}
use atrade.Prelude.Int.{ℤ, ◌+ℤ◌, ◌-ℤ◌, ◌≤ℤ◌, ◌<ℤ◌, ltb_ℤ, int_laws, pos_part, neg_part}
use atrade.Ledger.Table.{write_capital_allocation}
use atrade.ForwardTests.{
  ForwardTestRequest, ForwardTestRow, Tables, StartResult, started, capital_too_large,
  no_free_client_id,
}
use atrade.ForwardTests.Insert.{
  select_allocated_usd, is_taken, find_lowest_free_client_id, new_forward_test, start_with_client,
  start_forward_test,
}

-- The client IDs from `lo` (included) to `hi` (not included) are taken.
abbrev pub AreTaken : ℕ → ℕ → List ForwardTestRow → Type 0
AreTaken lo hi rows = (k : ℕ) → lo ≤ k → k < hi → is_taken k rows ≡ true

extend-AreTaken :
    (lo hi : ℕ) (rows : List ForwardTestRow)
    → is_taken lo rows ≡ true
    → AreTaken (lo + 1) hi rows
    → AreTaken lo hi rows
extend-AreTaken lo hi rows h rest k le lt = elim (first_or_later lo k le) [
  | inl here ↦ rw (← here) h
  | inr later ↦ rest k later lt
]
  where
    first_or_later : (a b : ℕ) → a ≤ b → (a ≡ b) ⊎ (a + 1 ≤ b)
    first_or_later a b h = omega arith

find_lowest-none :
    (lo count : ℕ) (rows : List ForwardTestRow)
    → find_lowest_free_client_id lo count rows ≡ none
    → AreTaken lo (lo + count) rows
unfolding find_lowest_free_client_id
find_lowest-none lo zero rows h = λ k le lt. absurd (omega arith)
find_lowest-none lo (suc count) rows h = elim (Bool-cases (is_taken lo rows)) [
  | inl taken ↦
      let rest = find_lowest-none (lo + 1) count rows (rw taken at h) in
      extend-AreTaken lo (lo + suc count) rows taken (λ k le lt. rest k le (omega arith))
  | inr free ↦ absurd (none-ne-some lo (sym (rw free at h)))
]

find_lowest-some :
    (lo count : ℕ) (rows : List ForwardTestRow) (c : ℕ)
    → find_lowest_free_client_id lo count rows ≡ some c
    → (lo ≤ c) × (c < lo + count) × (is_taken c rows ≡ false) × AreTaken lo c rows
unfolding find_lowest_free_client_id
find_lowest-some lo zero rows c h = absurd (none-ne-some c h)
find_lowest-some lo (suc count) rows c h = elim (Bool-cases (is_taken lo rows)) [
  | inl taken ↦
      let (le, lt, free, rest) = find_lowest-some (lo + 1) count rows c (rw taken at h) in
      (omega arith, omega arith, free, extend-AreTaken lo c rows taken rest)
  | inr free ↦
      of_some
        (λ (x : ℕ).
          (lo ≤ x) × (x < lo + suc count) × (is_taken x rows ≡ false) × AreTaken lo x rows)
        (rw free at h) (omega arith, omega arith, free, λ k le lt. absurd (omega arith))
]

select_allocated_usd-append :
    (rows : List ForwardTestRow) (row : ForwardTestRow) (client_id : ℕ) (amount : ℤ)
    → row.client_id ≡ some client_id
    → row.allocated_capital_usd ≡ some amount
    → select_allocated_usd (rows ++ row ∷ []) ≡ select_allocated_usd rows +ℤ amount
unfolding select_allocated_usd
select_allocated_usd-append [] row client_id amount e1 e2 = rw (e1, e2) (omega int_laws)
select_allocated_usd-append (r ∷ rows) row client_id amount e1 e2 =
    rw (select_allocated_usd-append rows row client_id amount e1 e2) (omega int_laws)

module _ (request : ForwardTestRequest) (first_client_id count created_at_utc : ℕ)
    (net_liquidation_usd : ℤ) (account : String) (tables : Tables) where
  -- The row of the new forward test, with the lowest client ID that is free, and its capital, which
  -- comes from "By hand". The capital of all forward tests that hold a client ID is at most the net
  -- liquidation value.
  pub record IsStarted (after : Tables) (row : ForwardTestRow) : Type 0 where
    pub client_id : ℕ
    pub in_range : (first_client_id ≤ client_id) × (client_id < first_client_id + count)
    pub free : is_taken client_id tables.rows ≡ false
    pub lowest : AreTaken first_client_id client_id tables.rows
    pub is_new : row ≡ new_forward_test request client_id created_at_utc tables.next_id
    pub rows : after.rows ≡ tables.rows ++ row ∷ []
    pub next_id : after.next_id ≡ tables.next_id + 1
    pub ledger :
        after.ledger
        ≡ write_capital_allocation tables.ledger account row.id request.allocated_capital_usd
            created_at_utc
    pub allocated : select_allocated_usd after.rows ≤ℤ net_liquidation_usd

  abbrev pub IsStartResult : StartResult → Type 0
  IsStartResult (started after row) = IsStarted after row
  IsStartResult (capital_too_large unallocated_usd) =
      (unallocated_usd ≡ net_liquidation_usd -ℤ select_allocated_usd tables.rows)
      × (unallocated_usd <ℤ request.allocated_capital_usd)
  IsStartResult no_free_client_id = AreTaken first_client_id (first_client_id + count) tables.rows

  enough :
      (sum : ℤ)
      → ltb_ℤ (net_liquidation_usd -ℤ sum) request.allocated_capital_usd ≡ false
      → sum +ℤ request.allocated_capital_usd ≤ℤ net_liquidation_usd
  enough sum h =
      let rest = net_liquidation_usd -ℤ sum in
      omega (
        int_laws,
        not_less (pos_part rest + neg_part request.allocated_capital_usd)
            (pos_part request.allocated_capital_usd + neg_part rest) h,
      )
    where
      not_less : (m n : ℕ) → ltb m n ≡ false → n ≤ m
      not_less m n h = ground arith

  with_client-IsStartResult :
      (client_id : Option ℕ)
      → find_lowest_free_client_id first_client_id count tables.rows ≡ client_id
      → select_allocated_usd tables.rows +ℤ request.allocated_capital_usd ≤ℤ net_liquidation_usd
      → IsStartResult (start_with_client request created_at_utc account tables client_id)
  with_client-IsStartResult none e fits = find_lowest-none first_client_id count tables.rows e
  with_client-IsStartResult (some c) e fits =
      let (le, lt, free, lowest) = find_lowest-some first_client_id count tables.rows c e in
      record {
        client_id = c;
        in_range = (le, lt);
        free = free;
        lowest = lowest;
        is_new = refl;
        rows = refl;
        next_id = refl;
        ledger = refl;
        allocated =
            rw
              (select_allocated_usd-append tables.rows
                (new_forward_test request c created_at_utc tables.next_id) c
                request.allocated_capital_usd refl refl)
              fits;
      }

  -- A start gives one of its three results: the new row with the lowest client ID of the range that is
  -- free, its capital moved in the ledger and the allocated capital within the net liquidation value; or
  -- a refusal, when the capital is more than what is not allocated, or when each client ID of the range
  -- is taken.
  pub start_forward_test-IsStartResult : IsStartResult (
      start_forward_test request first_client_id count created_at_utc net_liquidation_usd account
        tables)
  unfolding start_forward_test
  start_forward_test-IsStartResult =
      let unallocated = net_liquidation_usd -ℤ select_allocated_usd tables.rows in
      elim (Bool-cases (ltb_ℤ unallocated request.allocated_capital_usd)) [
        | inl too_large ↦
            let less : unallocated <ℤ request.allocated_capital_usd = ground arith in
            rw too_large (refl, less)
        | inr fits ↦
            rw fits
              (with_client-IsStartResult _ refl (enough (select_allocated_usd tables.rows) fits))
      ]
