-- ===== src/Backtests/RowStates.antt =====
-- How a row of the table `backtest` changes: it starts, it ends, it is cancelled.
use atrade.Prelude.Tables.{update_rows, IsOrdered}
use atrade.Prelude.{
  ℕ, ◌+◌, ◌<◌, ◌≡◌, refl, sym, ap, ◌∙◌, Bool, true, false, ◌==◌, ◌&&◌, ◌||◌, List, [], ◌∷◌, ◌++◌,
  some, arith, Bool-cases, inl, inr, All, length,
}
use atrade.Backtests.{BacktestStatus, BacktestRow, is_running, is_queued}
use atrade.Backtests.Store.{oldest_queued, start_row}
use atrade.Backtests.Sweeps.{cancel_row}
use atrade.Backtests.Runner.{remove_child}
use atrade.Backtests.Lifecycle.{
  has_started, has_ended, is_some, is_child, IsRowOk, oldest_queued-cons, oldest_queued-bounds,
  row_id,
}

queued-has_ended : (s : BacktestStatus) → is_queued s ≡ true → has_ended s ≡ false
queued-has_ended s h = ground arith

queued-has_started : (s : BacktestStatus) → is_queued s ≡ true → has_started s ≡ false
queued-has_started s h = ground arith

pub running-has_started : (s : BacktestStatus) → is_running s ≡ true → has_started s ≡ true
running-has_started s h = ground arith

-- A status that a backtest ends with after its start.
pub record IsFinal (s : BacktestStatus) : Type 0 where
  pub started : has_started s ≡ true
  pub ended : has_ended s ≡ true
  pub stopped : is_running s ≡ false

pub not_both : {b : Bool} → b ≡ true → b ≡ false → ⊥
not_both h k = ground arith

or_right : (a b : Bool) → b ≡ true → (a || b) ≡ true
or_right true b h = refl
or_right false b h = h

or_map : (a b c : Bool) → (b ≡ true → c ≡ true) → (a || b) ≡ true → (a || c) ≡ true
or_map true b c f h = refl
or_map false b c f h = f h

-- The children after the end of one of them.
pub is_child-remove_child :
    (x id : ℕ) (cs : List ℕ) → (id == x) ≡ false → is_child x (remove_child id cs) ≡ is_child x cs
unfolding remove_child
is_child-remove_child x id [] h = refl
is_child-remove_child x id (c ∷ cs) h = elim (Bool-cases (c == id)) [
  | inl gone ↦ let other : (c == x) ≡ false = ground arith in rw (gone, other) refl
  | inr kept ↦ rw (kept, is_child-remove_child x id cs h) refl
]

pub is_child-of_remove_child :
    (x id : ℕ) (cs : List ℕ) → is_child x (remove_child id cs) ≡ true → is_child x cs ≡ true
unfolding remove_child
is_child-of_remove_child x id [] h = h
is_child-of_remove_child x id (c ∷ cs) h = elim (Bool-cases (c == id)) [
  | inl gone ↦ or_right (c == x) (is_child x cs) (rw gone at h)
  | inr kept ↦
      or_map (c == x) (is_child x (remove_child id cs)) (is_child x cs)
        (is_child-of_remove_child x id cs) (rw kept at h)
]

pub length-remove_child :
    (id : ℕ) (cs : List ℕ) → is_child id cs ≡ true → length (remove_child id cs) + 1 ≡ length cs
unfolding remove_child
length-remove_child id [] h = absurd (not_both h refl)
length-remove_child id (c ∷ cs) h = elim (Bool-cases (c == id)) [
  | inl gone ↦ rw gone (omega arith)
  | inr kept ↦ rw kept (omega (arith, length-remove_child id cs (rw kept at h)))
]

pub All-remove_child :
    (P : ℕ → Type 0) (id : ℕ) (cs : List ℕ) → All P cs → All P (remove_child id cs)
unfolding remove_child
All-remove_child P id [] h = tt
All-remove_child P id (c ∷ cs) h = elim (Bool-cases (c == id)) [
  | inl gone ↦ rw gone h.1
  | inr kept ↦ rw kept (h.0, All-remove_child P id cs h.1)
]

pub remove_child-append :
    (id : ℕ) (cs left : List ℕ)
    → is_child id cs ≡ true
    → remove_child id (cs ++ left) ≡ remove_child id cs ++ left
unfolding remove_child
remove_child-append id [] left h = absurd (not_both h refl)
remove_child-append id (c ∷ cs) left h = elim (Bool-cases (c == id)) [
  | inl gone ↦ rw gone refl
  | inr kept ↦ rw (kept, remove_child-append id cs left (rw kept at h)) refl
]

pub is_child-append_left :
    (id : ℕ) (cs left : List ℕ) → is_child id cs ≡ true → is_child id (cs ++ left) ≡ true
is_child-append_left id [] left h = absurd (not_both h refl)
is_child-append_left id (c ∷ cs) left h = elim (Bool-cases (c == id)) [
  | inl hit ↦ rw hit refl
  | inr miss ↦ rw (miss, is_child-append_left id cs left (rw miss at h)) refl
]

or_swap : (a b c : Bool) → (a || (b || c)) ≡ (b || (a || c))
or_swap a b c = ground arith

-- A backtest moves behind the children.
pub is_child-moved :
    (x id : ℕ) (cs left : List ℕ) → is_child x (id ∷ (cs ++ left)) ≡ is_child x (cs ++ id ∷ left)
is_child-moved x id [] left = refl
is_child-moved x id (c ∷ cs) left =
    or_swap (id == x) (c == x) (is_child x (cs ++ left))
    ∙ ap (λ b. (c == x) || b) (is_child-moved x id cs left)

-- The end of the task of a backtest that then runs without one.
pub is_child-left :
    (x id : ℕ) (cs left : List ℕ)
    → is_child id cs ≡ true
    → is_child x (cs ++ left) ≡ is_child x (remove_child id cs ++ id ∷ left)
unfolding remove_child
is_child-left x id [] left h = absurd (not_both h refl)
is_child-left x id (c ∷ cs) left h = elim (Bool-cases (c == id)) [
  | inl gone ↦ let same : c ≡ id = ground arith in rw (gone, same) (is_child-moved x id cs left)
  | inr kept ↦ rw kept (ap (λ b. (c == x) || b) (is_child-left x id cs left (rw kept at h)))
]

pub All-of_append : (P : ℕ → Type 0) (cs left : List ℕ) → All P (cs ++ left) → All P cs × All P left
All-of_append P [] left h = (tt, h)
All-of_append P (c ∷ cs) left h = let (a, b) = All-of_append P cs left h.1 in ((h.0, a), b)

pub All-child : (P : ℕ → Type 0) (id : ℕ) (cs : List ℕ) → All P cs → is_child id cs ≡ true → P id
All-child P id [] h m = absurd (not_both m refl)
All-child P id (c ∷ cs) h m = elim (Bool-cases (c == id)) [
  | inl hit ↦ let same : c ≡ id = ground arith in rw (← same) h.0
  | inr miss ↦ All-child P id cs h.1 (rw miss at m)
]

other_id : (x id : ℕ) (b : Bool) → b ≡ true → ((x == id) && b) ≡ false → (id == x) ≡ false
other_id x id b h k = ground arith

module _ {V : Type 0} where
  -- A row with another id does not change its state when a child starts.
  IsRowOk-other :
      (children : List ℕ) (id : ℕ) (row : BacktestRow V)
      → (id == row.id) ≡ false
      → IsRowOk children row
      → IsRowOk (id ∷ children) row
  IsRowOk-other children id row other h = record {
    started = h.started;
    ended = h.ended;
    has_child = λ r. rw other (h.has_child r);
    child_started = λ c. h.child_started (rw other at c);
  }

  -- The same running backtests, in another list.
  pub IsRowOk-same :
      (cs ds : List ℕ)
      → ((x : ℕ) → is_child x cs ≡ is_child x ds)
      → (row : BacktestRow V) → IsRowOk cs row
      → IsRowOk ds row
  IsRowOk-same cs ds same row h = record {
    started = h.started;
    ended = h.ended;
    has_child = λ r. rw (← same row.id) (h.has_child r);
    child_started = λ c. h.child_started (same row.id ∙ c);
  }

  IsRowOk-start :
      (children : List ℕ) (id now : ℕ) (row : BacktestRow V)
      → (id == row.id) ≡ true
      → is_queued row.status ≡ true
      → IsRowOk children row
      → IsRowOk (id ∷ children) (start_row now row)
  IsRowOk-start children id now row same q h = record {
    started = refl;
    ended = h.ended ∙ queued-has_ended row.status q;
    has_child = λ r. rw same refl;
    child_started = λ c. refl;
  }

  IsRowOk-later :
      (children : List ℕ) (id now lo : ℕ) (rows : List (BacktestRow V)) (hi : ℕ)
      → id < lo
      → IsOrdered row_id lo rows hi
      → All (IsRowOk children) rows
      → All (IsRowOk (id ∷ children)) (update_rows (λ r. r.id == id) (start_row now) rows)
  unfolding update_rows
  IsRowOk-later children id now lo [] hi less o h = tt
  IsRowOk-later children id now lo (r ∷ rows) hi less o h =
      let other : (r.id == id) ≡ false = ground arith in
      let other' : (id == r.id) ≡ false = ground arith in
      rw other (
        IsRowOk-other children id r other' h.0,
        IsRowOk-later children id now (r.id + 1) rows hi (omega arith) o.1 h.1,
      )

  -- The start of the oldest queued backtest, with a child for it.
  pub All-IsRowOk-start :
      (children : List ℕ) (id now lo : ℕ) (rows : List (BacktestRow V)) (hi : ℕ)
      → oldest_queued rows ≡ some id
      → IsOrdered row_id lo rows hi
      → All (IsRowOk children) rows
      → All (IsRowOk (id ∷ children)) (update_rows (λ r. r.id == id) (start_row now) rows)
  unfolding update_rows oldest_queued
  All-IsRowOk-start children id now lo [] hi q o h = tt
  All-IsRowOk-start children id now lo (r ∷ rows) hi q o h = elim (oldest_queued-cons r rows id q) [
    | inl here ↦
        let hit : (r.id == id) ≡ true = ground arith in
        let same : (id == r.id) ≡ true = ground arith in
        rw hit (
          IsRowOk-start children id now r same here.0 h.0,
          IsRowOk-later children id now (r.id + 1) rows hi (omega (arith, here.1)) o.1 h.1,
        )
    | inr later ↦
        let bounds = oldest_queued-bounds (r.id + 1) rows hi id o.1 later.1 in
        let other : (r.id == id) ≡ false = ground arith in
        let other' : (id == r.id) ≡ false = ground arith in
        rw other (
          IsRowOk-other children id r other' h.0,
          All-IsRowOk-start children id now (r.id + 1) rows hi later.1 o.1 h.1,
        )
  ]

  -- A row that has started ends.
  pub IsRowOk-end :
      (children : List ℕ) (row after : BacktestRow V)
      → after.id ≡ row.id
      → after.started_at_utc ≡ row.started_at_utc
      → is_some after.ended_at_utc ≡ true
      → IsFinal after.status
      → has_started row.status ≡ true
      → IsRowOk children row
      → IsRowOk children after
  IsRowOk-end children row after id started ended final before h = record {
    started = rw started (h.started ∙ before) ∙ sym final.started;
    ended = ended ∙ sym final.ended;
    has_child = λ r. absurd (not_both r final.stopped);
    child_started = λ c. final.started;
  }

  pub IsRowOk-cancel :
      (children : List ℕ) (now : ℕ) (row : BacktestRow V)
      → is_queued row.status ≡ true
      → IsRowOk children row
      → IsRowOk children (cancel_row now row)
  IsRowOk-cancel children now row q h = record {
    started = h.started ∙ queued-has_started row.status q;
    ended = refl;
    has_child = λ r. absurd (not_both r refl);
    child_started = λ c. absurd (not_both (h.child_started c) (queued-has_started row.status q));
  }

  -- A row after the end of the task of its child, or of another one.
  pub IsRowOk-remove_child :
      (children : List ℕ) (id : ℕ) (row : BacktestRow V)
      → ((row.id == id) && is_running row.status) ≡ false
      → IsRowOk children row
      → IsRowOk (remove_child id children) row
  IsRowOk-remove_child children id row stopped h = record {
    started = h.started;
    ended = h.ended;
    has_child = λ r.
        let other : (id == row.id) ≡ false = other_id row.id id (is_running row.status) r stopped in
        rw (is_child-remove_child row.id id children other) (h.has_child r);
    child_started = λ c. h.child_started (is_child-of_remove_child row.id id children c);
  }
