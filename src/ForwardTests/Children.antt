-- ===== src/ForwardTests/Children.antt =====
-- The invariant of the rows and the running children of a worker, and the changes that keep it.
use atrade.Prelude.Tables.{
  All-update_rows, any-update_rows, any-update_rows-other, any-update_rows-mem, IsOrdered,
  IsOrdered-update_rows, IsOrdered-IsOnly, any-IsOnly, All-update_rows-only,
}
use mathlib.Core.List.{Memᴰ}
use atrade.Prelude.{
  ℕ, ◌==◌, ◌≡◌, ◌⊎◌, inl, inr, refl, ◌∙◌, Bool, true, false, any, List, [], ◌∷◌, none, some, arith,
  Bool-cases, All, All-map,
}
use mathlib.Core.Option.{none-ne-some}
use atrade.ForwardTests.{ForwardTestRow, is_active}
use atrade.ForwardTests.Store.{row_id, update_row}
use atrade.ForwardTests.Child.{RunningChild, get_child, delete_child, put_child}
use atrade.ForwardTests.Rows.{
  IsRowOk, HasOwnClients, supports, supports-id, HasOwnClients-update_row,
}
use atrade.Prelude.{of_some}

abbrev pub IsSupported : List ForwardTestRow → ℕ × RunningChild → Type 0
IsSupported rows (id, child) = any (supports id child) rows ≡ true

-- The ids of the rows go up, no 2 rows hold one client ID, each row is as its status says, and each
-- running child has a row that holds a client ID.
pub record IsOk (rows : List ForwardTestRow) (next_id : ℕ) (children : List (ℕ × RunningChild))
    : Type 0 where
  pub ordered : IsOrdered row_id 0 rows next_id
  pub clients : HasOwnClients rows
  pub rows_ok : All IsRowOk rows
  pub supported : All (IsSupported rows) children

same_number : (a b : ℕ) → (a == b) ≡ true → a ≡ b
same_number a b h = ground arith

not_here : (a b c : ℕ) → (a == c) ≡ false → (b == a) ≡ true → (b == c) ≡ false
not_here a b c h k = ground arith

-- The other children.
pub delete_child-others :
    (P : ℕ × RunningChild → Type 0) (id : ℕ) (children : List (ℕ × RunningChild))
    → All P children
    → All (λ (c : ℕ × RunningChild). ((c.0 == id) ≡ false) × P c) (delete_child id children)
unfolding delete_child
delete_child-others P id [] h = tt
delete_child-others P id ((other, child) ∷ children) h =
    let rest = delete_child-others P id children h.1 in
    elim (Bool-cases (other == id)) [
      | inl hit ↦ rw hit rest
      | inr miss ↦ rw miss ((miss, h.0), rest)
    ]

pub get_child-All :
    (P : ℕ × RunningChild → Type 0) (id : ℕ) (children : List (ℕ × RunningChild))
    (child : RunningChild)
    → All P children
    → get_child id children ≡ some child
    → P (id, child)
unfolding get_child
get_child-All P id [] child h e = absurd (none-ne-some child e)
get_child-All P id ((other, c) ∷ children) child h e = elim (Bool-cases (other == id)) [
  | inl hit ↦
      of_some (λ (x : RunningChild). P (id, x)) (rw hit at e) (rw (← same_number other id hit) h.0)
  | inr miss ↦ get_child-All P id children child h.1 (rw miss at e)
]

-- After a change of the row `r`: a child is the one of `r`, which the new row supports, or it is
-- another child of before.
abbrev pub IsNewOrOld :
    List ForwardTestRow → ForwardTestRow → ForwardTestRow → ℕ × RunningChild → Type 0
IsNewOrOld rows r after (id, child) =
    (((id == r.id) ≡ true) × (supports r.id child after ≡ true))
    ⊎ (((id == r.id) ≡ false) × IsSupported rows (id, child))

pub put_child-IsNewOrOld :
    (rows : List ForwardTestRow) (r after : ForwardTestRow) (child : RunningChild)
    (children : List (ℕ × RunningChild))
    → All (IsSupported rows) children
    → supports r.id child after ≡ true
    → All (IsNewOrOld rows r after) (put_child r.id child children)
unfolding put_child
put_child-IsNewOrOld rows r after child children h s =
    let same : (r.id == r.id) ≡ true = ground arith in
    (
      inl (same, s),
      All-map _ (λ c p. inr p) (delete_child-others (IsSupported rows) r.id children h),
    )

pub delete_child-IsNewOrOld :
    (rows : List ForwardTestRow) (r after : ForwardTestRow) (children : List (ℕ × RunningChild))
    → All (IsSupported rows) children
    → All (IsNewOrOld rows r after) (delete_child r.id children)
delete_child-IsNewOrOld rows r after children h =
    All-map _ (λ c p. inr p) (delete_child-others (IsSupported rows) r.id children h)

module _ {rows : List ForwardTestRow} {next_id : ℕ} {children : List (ℕ × RunningChild)}
    (ok : IsOk rows next_id children) where
  -- The row of a child, when it is the row `r`.
  pub IsOk-supports :
      (r : ForwardTestRow) (child : RunningChild)
      → Memᴰ r rows
      → get_child r.id children ≡ some child
      → supports r.id child r ≡ true
  IsOk-supports r child m e =
      any-IsOnly row_id r (supports r.id child) (supports-id r.id child) rows
        (IsOrdered-IsOnly row_id r 0 rows next_id ok.ordered m)
        (get_child-All (IsSupported rows) r.id children child ok.supported e)

  module _ (r : ForwardTestRow) (m : Memᴰ r rows) where
    any_mem :
        (p : ForwardTestRow → Bool) (xs : List ForwardTestRow)
        → Memᴰ r xs
        → p r ≡ true
        → any p xs ≡ true
    any_mem p [] here h = elim here [ ]
    any_mem p (x ∷ xs) (Memᴰ.head e) h = rw (← e, h) refl
    any_mem p (x ∷ xs) (Memᴰ.tail later) h = elim (Bool-cases (p x)) [
      | inl hit ↦ rw hit refl
      | inr miss ↦ rw (miss, any_mem p xs later h) refl
    ]

    -- Only the child of the row changes.
    pub IsOk-child :
        (children' : List (ℕ × RunningChild))
        → All (IsNewOrOld rows r r) children'
        → IsOk rows next_id children'
    IsOk-child children' h = record {
      ordered = ok.ordered;
      clients = ok.clients;
      rows_ok = ok.rows_ok;
      supported = All-map children' one h;
    }
      where
        one : (c : ℕ × RunningChild) → IsNewOrOld rows r r c → IsSupported rows c
        one (id, child) (inl (same, s)) =
            rw (same_number id r.id same) (any_mem (supports r.id child) rows m s)
        one (id, child) (inr (other, s)) = s

    -- The row and its child change.
    pub IsOk-update_row :
        (set_row : ForwardTestRow → ForwardTestRow)
        → ((row : ForwardTestRow) → (set_row row).id ≡ row.id)
        → ((row : ForwardTestRow)
            → ((set_row row).client_id ≡ row.client_id) ⊎ ((set_row row).client_id ≡ none))
        → IsRowOk (set_row r)
        → (children' : List (ℕ × RunningChild)) → All (IsNewOrOld rows r (set_row r)) children'
        → IsOk (update_row r.id set_row rows) next_id children'
    IsOk-update_row set_row keep keep_client row_ok children' h = record {
      ordered =
          IsOrdered-update_rows row_id (λ row. row_id row == r.id) set_row keep 0 rows next_id
            ok.ordered;
      clients = HasOwnClients-update_row r.id set_row keep_client rows ok.clients;
      rows_ok =
          All-update_rows-only row_id r IsRowOk set_row rows
            (IsOrdered-IsOnly row_id r 0 rows next_id ok.ordered m) row_ok ok.rows_ok;
      supported = All-map children' one h;
    }
      where
        one :
            (c : ℕ × RunningChild)
            → IsNewOrOld rows r (set_row r) c
            → IsSupported (update_row r.id set_row rows) c
        one (id, child) (inl (same, s)) =
            let here : (r.id == r.id) ≡ true = ground arith in
            rw (same_number id r.id same)
              (any-update_rows-mem (supports r.id child) _ set_row r rows m here s)
        one (id, child) (inr (other, s)) =
            any-update_rows-other (supports id child) _ set_row
              (λ row p. not_here id row.id r.id other (supports-id id child row p)) rows s

  -- A change of any row that keeps its id, its client ID, and whether it is active.
  module _ (id : ℕ) (set_row : ForwardTestRow → ForwardTestRow)
      (keep : (row : ForwardTestRow) → (set_row row).id ≡ row.id)
      (keep_client : (row : ForwardTestRow) → (set_row row).client_id ≡ row.client_id)
      (keep_active : (row : ForwardTestRow)
        → is_active (set_row row).status ≡ is_active row.status) where
    supports-set_row :
        (i : ℕ) (child : RunningChild) (row : ForwardTestRow)
        → supports i child (set_row row) ≡ supports i child row
    supports-set_row i child row = rw (keep row, keep_client row, keep_active row) refl

    pub IsOk-update_any :
        ((row : ForwardTestRow) → IsRowOk row → IsRowOk (set_row row))
        → IsOk (update_row id set_row rows) next_id children
    IsOk-update_any change = record {
      ordered =
          IsOrdered-update_rows row_id (λ row. row_id row == id) set_row keep 0 rows next_id
            ok.ordered;
      clients = HasOwnClients-update_row id set_row (λ row. inl (keep_client row)) rows ok.clients;
      rows_ok =
          All-update_rows IsRowOk IsRowOk _ set_row (λ row hit. change row) (λ row miss fine. fine)
            rows ok.rows_ok;
      supported =
          All-map children
            (λ c s.
              any-update_rows (supports c.0 c.1) _ set_row (supports-set_row c.0 c.1) rows ∙ s)
            ok.supported;
    }
