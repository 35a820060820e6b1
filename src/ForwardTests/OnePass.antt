-- ===== src/ForwardTests/OnePass.antt =====
-- A whole pass of the worker: its rows one after the other.
use mathlib.Core.List.{Memᴰ}
use atrade.Prelude.{
  ℕ, ◌+◌, ◌<◌, ◌==◌, ◌≡◌, ◌≢◌, ◌↔◌, inl, inr, refl, ap, ◌∙◌, true, false, List, [], ◌∷◌, map,
  Option, none, some, arith, Bool-cases, All, All-map,
}
use atrade.Prelude.Tables.{IsOrdered, IsOrdered-from, IsOnly, IsOrdered-IsOnly}
use atrade.Ledger.{Decimals}
use atrade.ForwardTests.{ForwardTestStatus, ForwardTestRow, is_to_compare}
use atrade.ForwardTests.Store.{row_id, is_held, select_rows_to_compare}
use atrade.ForwardTests.Worker.{compare_row, compare_rows, compare_states}
use atrade.ForwardTests.Child.{ForwardTestWorker, Answers, get_child}
use atrade.ForwardTests.Others.{compare_row-KeepsOthers}

pub IsOrdered-select :
    (lo : ℕ) (rows : List ForwardTestRow) (hi : ℕ)
    → IsOrdered row_id lo rows hi
    → IsOrdered row_id lo (select_rows_to_compare rows) hi
unfolding select_rows_to_compare
IsOrdered-select lo [] hi h = h
IsOrdered-select lo (row ∷ rows) hi h =
    let rest = IsOrdered-select (row.id + 1) rows hi h.1 in
    elim (Bool-cases (is_to_compare row.status (is_held row.client_id))) [
      | inl picked ↦ rw picked (h.0, rest)
      | inr done ↦ rw done (IsOrdered-from row_id lo (row.id + 1) _ hi (omega (arith, h.0)) rest)
    ]

All-select :
    (P : ForwardTestRow → Type 0) (rows : List ForwardTestRow)
    → All P rows
    → All P (select_rows_to_compare rows)
unfolding select_rows_to_compare
All-select P [] h = tt
All-select P (row ∷ rows) h =
    let rest = All-select P rows h.1 in
    elim (Bool-cases (is_to_compare row.status (is_held row.client_id))) [
      | inl picked ↦ rw picked (h.0, rest)
      | inr done ↦ rw done rest
    ]

All-Mem : (rows : List ForwardTestRow) → All (λ x. Memᴰ x rows) rows
All-Mem [] = tt
All-Mem (row ∷ rows) = (Memᴰ.head refl, All-map rows (λ x m. Memᴰ.tail m) (All-Mem rows))

-- The rows after a row have other ids.
pub others_after :
    (id lo : ℕ) (rows : List ForwardTestRow) (hi : ℕ)
    → IsOrdered row_id lo rows hi
    → id < lo
    → All (λ (x : ForwardTestRow). (x.id == id) ≡ false) rows
others_after id lo [] hi h less = tt
others_after id lo (row ∷ rows) hi h less =
    let other : (row.id == id) ≡ false = ground (arith, h.0) in
    (other, others_after id (row.id + 1) rows hi h.1 (omega (arith, h.0)))

All-both :
    {P Q R : ForwardTestRow → Type 0} (xs : List ForwardTestRow)
    → ((x : ForwardTestRow) → P x → Q x → R x)
    → All P xs
    → All Q xs
    → All R xs
All-both [] f h k = tt
All-both (x ∷ xs) f h k = (f x h.0 k.0, All-both xs f h.1 k.1)

-- The worker still acts on the row.
pub record IsToCompare (row : ForwardTestRow) : Type 0 where
  pub not_stopped : row.status ≢ ForwardTestStatus.stopped
  pub not_done : row.status ≡ ForwardTestStatus.failed → row.client_id ≢ none

to_compare_status :
    (s : ForwardTestStatus) (client_id : Option ℕ)
    → is_to_compare s (is_held client_id) ≡ true
    → (s ≢ ForwardTestStatus.stopped) × (s ≡ ForwardTestStatus.failed → client_id ≢ none)
to_compare_status ForwardTestStatus.stopped c h = absurd (ground arith)
to_compare_status ForwardTestStatus.failed (some c) h = (λ e. ground arith, λ e n. ground arith)
to_compare_status ForwardTestStatus.failed none h = absurd (ground arith)
to_compare_status ForwardTestStatus.starting c h = (λ e. ground arith, λ e. absurd (ground arith))
to_compare_status ForwardTestStatus.running c h = (λ e. ground arith, λ e. absurd (ground arith))
to_compare_status ForwardTestStatus.waiting_for_gateway c h =
    (λ e. ground arith, λ e. absurd (ground arith))
to_compare_status ForwardTestStatus.stopping c h = (λ e. ground arith, λ e. absurd (ground arith))
to_compare_status ForwardTestStatus.stop_failed c h =
    (λ e. ground arith, λ e. absurd (ground arith))

IsToCompare-of :
    (row : ForwardTestRow)
    → is_to_compare row.status (is_held row.client_id) ≡ true
    → IsToCompare row
IsToCompare-of row h =
    let (a, b) = to_compare_status row.status row.client_id h in
    record { not_stopped = a; not_done = b }

status_to_compare :
    (s : ForwardTestStatus) (client_id : Option ℕ)
    → s ≢ ForwardTestStatus.stopped
    → (s ≡ ForwardTestStatus.failed → client_id ≢ none)
    → is_to_compare s (is_held client_id) ≡ true
status_to_compare ForwardTestStatus.stopped c h k = absurd (h refl)
status_to_compare ForwardTestStatus.failed (some c) h k = refl
status_to_compare ForwardTestStatus.failed none h k = absurd (k refl refl)
status_to_compare ForwardTestStatus.starting c h k = refl
status_to_compare ForwardTestStatus.running c h k = refl
status_to_compare ForwardTestStatus.waiting_for_gateway c h k = refl
status_to_compare ForwardTestStatus.stopping c h k = refl
status_to_compare ForwardTestStatus.stop_failed c h k = refl

of_IsToCompare :
    (row : ForwardTestRow)
    → IsToCompare row
    → is_to_compare row.status (is_held row.client_id) ≡ true
of_IsToCompare row h = status_to_compare row.status row.client_id h.not_stopped h.not_done

pub Mem-select :
    (r : ForwardTestRow) (rows : List ForwardTestRow)
    → Memᴰ r rows
    → is_to_compare r.status (is_held r.client_id) ≡ true
    → Memᴰ r (select_rows_to_compare rows)
unfolding select_rows_to_compare
Mem-select r [] m picked = elim m [ ]
Mem-select r (row ∷ rows) (Memᴰ.head e) picked = rw (← e, picked) (Memᴰ.head refl)
Mem-select r (row ∷ rows) (Memᴰ.tail m) picked =
    elim (Bool-cases (is_to_compare row.status (is_held row.client_id))) [
      | inl also ↦ rw also (Memᴰ.tail (Mem-select r rows m picked))
      | inr done ↦ rw done (Mem-select r rows m picked)
    ]

Mem-map_id :
    (r : ForwardTestRow) (rows : List ForwardTestRow) → Memᴰ r rows → Memᴰ r.id (map row_id rows)
Mem-map_id r [] m = elim m [ ]
Mem-map_id r (row ∷ rows) (Memᴰ.head e) = Memᴰ.head (ap row_id e)
Mem-map_id r (row ∷ rows) (Memᴰ.tail m) = Memᴰ.tail (Mem-map_id r rows m)

IsOrdered-map :
    (lo : ℕ) (rows : List ForwardTestRow) (hi : ℕ)
    → IsOrdered row_id lo rows hi
    → IsOrdered (λ id. id) lo (map row_id rows) hi
IsOrdered-map lo [] hi h = h
IsOrdered-map lo (row ∷ rows) hi h = (h.0, IsOrdered-map (row.id + 1) rows hi h.1)

-- The id of a row is selected: the row is to be compared.
selected_row :
    (r : ForwardTestRow) (rows : List ForwardTestRow)
    → IsOnly row_id r rows
    → Memᴰ r.id (map row_id (select_rows_to_compare rows))
    → is_to_compare r.status (is_held r.client_id) ≡ true
unfolding select_rows_to_compare
selected_row r [] only m = elim m [ ]
selected_row r (row ∷ rows) only m =
    elim (Bool-cases (is_to_compare row.status (is_held row.client_id))) [
      | inl picked ↦ here picked (selected_row r rows only.1) (rw picked at m)
      | inr done ↦ selected_row r rows only.1 (rw done at m)
    ]
  where
    here :
        is_to_compare row.status (is_held row.client_id) ≡ true
        → (Memᴰ r.id (map row_id (select_rows_to_compare rows))
            → is_to_compare r.status (is_held r.client_id) ≡ true)
        → Memᴰ r.id (row.id ∷ map row_id (select_rows_to_compare rows))
        → is_to_compare r.status (is_held r.client_id) ≡ true
    here picked later (Memᴰ.head e) =
        let same : (row.id == r.id) ≡ true = ground arith in rw (← only.0 same) picked
    here picked later (Memᴰ.tail m) = later m

module _ (decimals : Decimals) (answers : Answers) where
  -- The rows of a pass, when they are in the table.
  abbrev AreIn : ForwardTestWorker → List ForwardTestRow → Type 0
  AreIn w rows = All (λ x. Memᴰ x w.tables.rows) rows

  after_row :
      (w : ForwardTestWorker) (row : ForwardTestRow) (rows : List ForwardTestRow) (hi : ℕ)
      → IsOrdered row_id (row.id + 1) rows hi
      → AreIn w rows
      → AreIn (compare_row decimals answers row w) rows
  after_row w row rows hi ordered h =
      All-both rows
        (λ x m other. (compare_row-KeepsOthers decimals answers row w).keeps_row x other m) h
        (others_after row.id (row.id + 1) rows hi ordered (omega arith))

  -- The worker compares the rows with these ids, one after the other, each with the row as the table has
  -- it then.
  pub data Compares : ForwardTestWorker → List ℕ → ForwardTestWorker → Type 0 where
    all_compared : (w : ForwardTestWorker) → Compares w [] w
    compares_row :
        (w : ForwardTestWorker) (row : ForwardTestRow) (ids : List ℕ) (v : ForwardTestWorker)
        → Memᴰ row w.tables.rows
        → Compares (compare_row decimals answers row w) ids v
        → Compares w (row.id ∷ ids) v

  compare_rows-Compares :
      (w : ForwardTestWorker) (lo : ℕ) (rows : List ForwardTestRow) (hi : ℕ)
      → IsOrdered row_id lo rows hi
      → AreIn w rows
      → Compares w (map row_id rows) (compare_rows decimals answers rows w)
  unfolding compare_rows
  compare_rows-Compares w lo [] hi ordered h = all_compared w
  compare_rows-Compares w lo (row ∷ rows) hi ordered h =
      compares_row w row (map row_id rows) _ h.0 (
        compare_rows-Compares (compare_row decimals answers row w) (row.id + 1) rows hi ordered.1
          (after_row w row rows hi ordered.1 h.1))

  -- A pass of the worker, when the ids of the rows go up and no other process writes: it compares once
  -- each row that is not stopped, and not failed without a client ID, in the order of the ids, and no
  -- other row. Each is compared as the table has it then.
  pub compare_states-Compares :
      (w : ForwardTestWorker)
      → IsOrdered row_id 0 w.tables.rows w.tables.next_id
      → (ids : List ℕ) × Compares w ids (compare_states decimals answers w)
        × IsOrdered (λ id. id) 0 ids w.tables.next_id
        × ((row : ForwardTestRow) → Memᴰ row w.tables.rows → Memᴰ row.id ids ↔ IsToCompare row)
  unfolding compare_states
  compare_states-Compares w ordered =
      let rows = select_rows_to_compare w.tables.rows in
      let selected = IsOrdered-select 0 w.tables.rows w.tables.next_id ordered in
      (
        map row_id rows,
        compare_rows-Compares w 0 rows w.tables.next_id selected
            (All-select _ w.tables.rows (All-Mem w.tables.rows)),
        IsOrdered-map 0 rows w.tables.next_id selected,
        λ row m. (
          λ here. IsToCompare-of row (
              selected_row row w.tables.rows
                (IsOrdered-IsOnly row_id row 0 w.tables.rows w.tables.next_id ordered m) here),
          λ to_compare.
              Mem-map_id row rows (Mem-select row w.tables.rows m (of_IsToCompare row to_compare)),
        ),
      )

  -- The rows of a pass that are not a row leave it and its child.
  pub compare_rows-others :
      (r : ForwardTestRow) (w : ForwardTestWorker) (rows : List ForwardTestRow)
      → All (λ (x : ForwardTestRow). (r.id == x.id) ≡ false) rows
      → Memᴰ r w.tables.rows
      → let v = compare_rows decimals answers rows w in
        Memᴰ r v.tables.rows
        × (get_child r.id v.running_children ≡ get_child r.id w.running_children)
  unfolding compare_rows
  compare_rows-others r w [] other m = (m, refl)
  compare_rows-others r w (x ∷ rows) other m =
      let keeps = compare_row-KeepsOthers decimals answers x w in
      let (later, child) =
        compare_rows-others r (compare_row decimals answers x w) rows other.1
          (keeps.keeps_row r other.0 m) in
      (later, child ∙ keeps.keeps_child r.id other.0)
