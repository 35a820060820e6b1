-- ===== src/SplitChecks/Confirmed.antt =====
-- Each candidate of evidence A can be confirmed, once.
use mathlib.Core.List.{Memᴰ}
use mathlib.Core.Bool.{true≢false}
use atrade.Prelude.{
  and_both, ℕ, ◌==◌, ◌≡◌, ◌⊎◌, inl, inr, refl, sym, ap, ◌∙◌, true, false, any, List, [], ◌∷◌, some,
  arith, Bool-cases,
}
use atrade.Ledger.{Decimals, same_instrument}
use atrade.Ledger.Keys.{same_instrument_refl, same_instrument-eq}
use atrade.SplitChecks.Bars.{
  SplitTables, StockSplit, StockSplitChange, SplitConfirmation, is_split_of, is_candidate,
  confirm_split, write_split_row, change_stored_bars, done, apply_stock_split_in_transaction,
  from_ibkr,
}
use atrade.SplitChecks.Checks.{StockSplitCandidate, to_change}
use atrade.SplitChecks.Evidence.{read_stock_split_candidates}
use atrade.SplitChecks.BarsOnce.{confirmed_split}

mem_cons : {A : Type 0} {x y : A} {xs : List A} → Memᴰ x (y ∷ xs) → (x ≡ y) ⊎ Memᴰ x xs
mem_cons (Memᴰ.head e) = inl e
mem_cons (Memᴰ.tail m) = inr m

mem_nil : {A : Type 0} {x : A} → Memᴰ x [] → ⊥
mem_nil = elim [ ]

abbrev change_of_split : StockSplit → StockSplitChange
change_of_split s = record {
  instrument = s.instrument;
  ex_date_utc = s.ex_date_utc;
  split_ratio = s.split_ratio;
}

abbrev candidate_of : StockSplit → StockSplitCandidate
candidate_of s = record {
  id = s.id;
  instrument = s.instrument;
  ex_date_utc = s.ex_date_utc;
  split_ratio = s.split_ratio;
}

-- The unique columns of stock_split: no 2 rows have the same instrument and ex-date.
abbrev pub HasOneSplit : List StockSplit → Type 0
HasOneSplit [] = Unit
HasOneSplit (s ∷ splits) =
    (any (is_split_of (change_of_split s)) splits ≡ false) × HasOneSplit splits

read-cases :
    (c : StockSplitCandidate) (s : StockSplit) (splits : List StockSplit)
    → Memᴰ c (read_stock_split_candidates (s ∷ splits))
    → ((is_candidate s.source s.confirmation ≡ true) × (c ≡ candidate_of s))
      ⊎ Memᴰ c (read_stock_split_candidates splits)
unfolding read_stock_split_candidates
read-cases c s splits m = elim (Bool-cases (is_candidate s.source s.confirmation)) [
  | inl yes_split ↦ elim (mem_cons (rw yes_split at m)) [
    | inl e ↦ inl (yes_split, e)
    | inr later ↦ inr later
  ]
  | inr not_split ↦ inr (rw not_split at m)
]

own_key : (s : StockSplit) → is_split_of (to_change (candidate_of s)) s ≡ true
unfolding is_split_of
own_key s =
    let same : (s.ex_date_utc == s.ex_date_utc) ≡ true = ground arith in
    rw (same_instrument_refl s.instrument, same) refl

read-key :
    (c : StockSplitCandidate) (splits : List StockSplit)
    → Memᴰ c (read_stock_split_candidates splits)
    → any (is_split_of (to_change c)) splits ≡ true
unfolding read_stock_split_candidates
read-key c [] m = absurd (mem_nil m)
read-key c (s ∷ splits) m = elim (read-cases c s splits m) [
  | inl (open_split, e) ↦
      let hit : is_split_of (to_change c) s ≡ true = rw e (own_key s) in rw hit refl
  | inr later ↦ elim (Bool-cases (is_split_of (to_change c) s)) [
    | inl hit ↦ rw hit refl
    | inr miss ↦ rw (miss, read-key c splits later) refl
  ]
]

-- Rows with the key of another one have the same hits.
same_key_hits :
    (change : StockSplitChange) (s : StockSplit) (splits : List StockSplit)
    → is_split_of change s ≡ true
    → any (is_split_of (change_of_split s)) splits ≡ any (is_split_of change) splits
unfolding is_split_of
same_key_hits change s splits h =
    let (i, d) = and_both (same_instrument s.instrument change.instrument) _ h in
    let same_day : s.ex_date_utc ≡ change.ex_date_utc = ground arith in
    rw (same_instrument-eq s.instrument change.instrument i, same_day) refl

unread :
    (c : StockSplitCandidate) (splits : List StockSplit)
    → any (is_split_of (to_change c)) splits ≡ false
    → ¬ Memᴰ c (read_stock_split_candidates splits)
unread c splits miss m = true≢false (sym (read-key c splits m) ∙ miss)

module _ (confirmation : SplitConfirmation) (now next_id : ℕ) where
  -- The rows after the confirmation do not have the candidate.
  abbrev IsConfirmed : StockSplitCandidate → List StockSplit → Type 0
  IsConfirmed c splits =
      (after : List StockSplit) × (write_split_row (to_change c) confirmation now next_id splits
        ≡ some (after, c.id))
      × ¬ Memᴰ c (read_stock_split_candidates after)

  confirm_first :
      (s : StockSplit) (splits : List StockSplit)
      → any (is_split_of (change_of_split s)) splits ≡ false
      → is_candidate s.source s.confirmation ≡ true
      → IsConfirmed (candidate_of s) (s ∷ splits)
  unfolding write_split_row read_stock_split_candidates
  confirm_first s splits unique open_split = (
    confirm_split (to_change (candidate_of s)) confirmation now s ∷ splits,
    rw (own_key s, open_split) refl,
    λ m.
        unread (candidate_of s) splits unique
          (rw (confirmed_split s.source (from_ibkr confirmation)) at m),
  )

  confirm_later :
      (c : StockSplitCandidate) (s : StockSplit) (splits : List StockSplit)
      → is_split_of (to_change c) s ≡ false
      → IsConfirmed c splits
      → IsConfirmed c (s ∷ splits)
  unfolding write_split_row
  confirm_later c s splits miss (after, e, gone) = (
    s ∷ after,
    rw (miss, e) refl,
    λ m. elim (read-cases c s after m) [
      | inl (open_split, same) ↦
          let hit : is_split_of (to_change c) s ≡ true = rw same (own_key s) in
          true≢false (sym hit ∙ miss)
      | inr later ↦ gone later
    ],
  )

  candidate-IsConfirmed :
      (c : StockSplitCandidate) (splits : List StockSplit)
      → HasOneSplit splits
      → Memᴰ c (read_stock_split_candidates splits)
      → IsConfirmed c splits
  unfolding read_stock_split_candidates
  candidate-IsConfirmed c [] one m = absurd (mem_nil m)
  candidate-IsConfirmed c (s ∷ splits) one m = elim (read-cases c s splits m) [
    | inl (open_split, e) ↦ rw e (confirm_first s splits one.0 open_split)
    | inr later ↦ elim (Bool-cases (is_split_of (to_change c) s)) [
      | inl hit ↦ absurd (
          true≢false (
            sym (read-key c splits later) ∙ sym (same_key_hits (to_change c) s splits hit) ∙ one.0))
      | inr miss ↦ confirm_later c s splits miss (candidate-IsConfirmed c splits one.1 later)
    ]
  ]

-- When no 2 rows of stock_split have the same instrument and ex-date, each candidate that
-- `read_stock_split_candidates` gives can be confirmed: `apply_stock_split_in_transaction` ends with
-- the id of the candidate, and the candidate is not read again.
pub apply_stock_split_in_transaction-candidate :
    (decimals : Decimals) (confirmation : SplitConfirmation) (now : ℕ) (c : StockSplitCandidate)
    (tables : SplitTables)
    → HasOneSplit tables.stock_splits
    → Memᴰ c (read_stock_split_candidates tables.stock_splits)
    → (after : SplitTables) × (apply_stock_split_in_transaction decimals
          (to_change c)
          confirmation
          now
          tables
        ≡ done (after, c.id))
      × ¬ Memᴰ c (read_stock_split_candidates after.stock_splits)
unfolding apply_stock_split_in_transaction
apply_stock_split_in_transaction-candidate decimals confirmation now c tables one m =
    let (splits, e, gone) =
      candidate-IsConfirmed confirmation now tables.next_split_id c tables.stock_splits one m in
    (_, ap (change_stored_bars decimals (to_change c) tables) e, gone)
