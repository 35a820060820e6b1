-- ===== src/Prelude/Tables.antt =====
-- A table as the list of its rows in the order of their ids: its updates, and what they keep.
use Prim.Native.Nat.{ℕ, ◌+◌, ◌≤◌, ◌<◌}
use mathlib.Core.Bool.{Bool, true, false}
use mathlib.Core.List.{List, [], ◌∷◌, ◌++◌, Memᴰ}
use mathlib.Core.Path.{◌≡◌, refl, sym}
use mathlib.Core.Logic.{inl, inr}
use native.Mathlib.Omega.{arith}
use atrade.Prelude.Tests.{if◌then◌else◌, ◌==◌, Bool-cases}
use atrade.Prelude.Lists.{any, All}

module _ {ℓ} {A : Type ℓ} where
  -- `UPDATE … SET … WHERE …`
  unfoldable pub update_rows : (A → Bool) → (A → A) → List A → List A
  update_rows where_row set_row [] = []
  update_rows where_row set_row (row ∷ rows) =
      (if where_row row then set_row row else row) ∷ update_rows where_row set_row rows

  -- A row property after an update, from what it is for the rows that the update changes and for the
  -- others.
  pub All-update_rows {κ} :
      (P Q : A → Type κ) (where_row : A → Bool) (set_row : A → A)
      → ((row : A) → where_row row ≡ true → P row → Q (set_row row))
      → ((row : A) → where_row row ≡ false → P row → Q row)
      → (rows : List A) → All P rows
      → All Q (update_rows where_row set_row rows)
  unfolding update_rows
  All-update_rows P Q where_row set_row change keep [] h = tt
  All-update_rows P Q where_row set_row change keep (r ∷ rows) h =
      let rest = All-update_rows P Q where_row set_row change keep rows h.1 in
      elim (Bool-cases (where_row r)) [
        | inl hit ↦ rw hit (change r hit h.0, rest)
        | inr miss ↦ rw miss (keep r miss h.0, rest)
      ]

  -- A test that the update does not change.
  pub any-update_rows :
      (p where_row : A → Bool) (set_row : A → A)
      → ((row : A) → p (set_row row) ≡ p row)
      → (rows : List A) → any p (update_rows where_row set_row rows) ≡ any p rows
  unfolding update_rows
  any-update_rows p where_row set_row same [] = refl
  any-update_rows p where_row set_row same (r ∷ rows) = elim (Bool-cases (where_row r)) [
    | inl hit ↦ rw (hit, same r, any-update_rows p where_row set_row same rows) refl
    | inr miss ↦ rw (miss, any-update_rows p where_row set_row same rows) refl
  ]

  -- A row that passes the test, and that the update does not change.
  pub any-update_rows-other :
      (p where_row : A → Bool) (set_row : A → A)
      → ((row : A) → p row ≡ true → where_row row ≡ false)
      → (rows : List A) → any p rows ≡ true
      → any p (update_rows where_row set_row rows) ≡ true
  unfolding update_rows
  any-update_rows-other p where_row set_row other [] h = absurd (ground arith)
  any-update_rows-other p where_row set_row other (r ∷ rows) h = elim (Bool-cases (p r)) [
    | inl hit ↦ rw (other r hit, hit) refl
    | inr miss ↦
        let rest = any-update_rows-other p where_row set_row other rows (rw miss at h) in
        elim (Bool-cases (p (if where_row r then set_row r else r))) [
          | inl now ↦ rw now refl
          | inr never ↦ rw (never, rest) refl
        ]
  ]

  -- A row of the table that the update changes, and that passes the test then.
  pub any-update_rows-mem :
      (p where_row : A → Bool) (set_row : A → A) (r : A) (rows : List A)
      → Memᴰ r rows
      → where_row r ≡ true
      → p (set_row r) ≡ true
      → any p (update_rows where_row set_row rows) ≡ true
  unfolding update_rows
  any-update_rows-mem p where_row set_row r [] m hit h = elim m [ ]
  any-update_rows-mem p where_row set_row r (x ∷ rows) (Memᴰ.head e) hit h = rw (← e, hit, h) refl
  any-update_rows-mem p where_row set_row r (x ∷ rows) (Memᴰ.tail m) hit h =
      let rest = any-update_rows-mem p where_row set_row r rows m hit h in
      elim (Bool-cases (p (if where_row x then set_row x else x))) [
        | inl now ↦ rw now refl
        | inr never ↦ rw (never, rest) refl
      ]

  -- A row that the update does not change is in the table afterwards.
  pub Mem-update_rows :
      (where_row : A → Bool) (set_row : A → A) (x : A) (rows : List A)
      → Memᴰ x rows
      → where_row x ≡ false
      → Memᴰ x (update_rows where_row set_row rows)
  unfolding update_rows
  Mem-update_rows where_row set_row x [] m other = elim m [ ]
  Mem-update_rows where_row set_row x (y ∷ rows) (Memᴰ.head e) other =
      Memᴰ.head (rw (← e, other) refl)
  Mem-update_rows where_row set_row x (y ∷ rows) (Memᴰ.tail m) other =
      Memᴰ.tail (Mem-update_rows where_row set_row x rows m other)

  -- A row that the update changes.
  pub Mem-update_rows-changed :
      (where_row : A → Bool) (set_row : A → A) (x : A) (rows : List A)
      → Memᴰ x rows
      → where_row x ≡ true
      → Memᴰ (set_row x) (update_rows where_row set_row rows)
  unfolding update_rows
  Mem-update_rows-changed where_row set_row x [] m hit = elim m [ ]
  Mem-update_rows-changed where_row set_row x (y ∷ rows) (Memᴰ.head e) hit =
      Memᴰ.head (rw (← e, hit) refl)
  Mem-update_rows-changed where_row set_row x (y ∷ rows) (Memᴰ.tail m) hit =
      Memᴰ.tail (Mem-update_rows-changed where_row set_row x rows m hit)

  module _ (id : A → ℕ) where
    -- The ids of the rows go up, from `lo` (included) to `hi` (not included).
    abbrev pub IsOrdered : ℕ → List A → ℕ → Type 0
    IsOrdered lo [] hi = lo ≤ hi
    IsOrdered lo (row ∷ rows) hi = (lo ≤ id row) × IsOrdered (id row + 1) rows hi

    pub IsOrdered-append :
        (lo : ℕ) (rows : List A) (row : A) (hi : ℕ)
        → IsOrdered lo rows hi
        → hi ≡ id row
        → IsOrdered lo (rows ++ row ∷ []) (hi + 1)
    IsOrdered-append lo [] row hi h e = omega arith
    IsOrdered-append lo (r ∷ rows) row hi h e = (h.0, IsOrdered-append (id r + 1) rows row hi h.1 e)

    pub IsOrdered-from :
        (lo lo' : ℕ) (rows : List A) (hi : ℕ)
        → lo ≤ lo'
        → IsOrdered lo' rows hi
        → IsOrdered lo rows hi
    IsOrdered-from lo lo' [] hi le h = omega arith
    IsOrdered-from lo lo' (r ∷ rows) hi le h = (omega arith, h.1)

    pub IsOrdered-le : (lo : ℕ) (rows : List A) (hi : ℕ) → IsOrdered lo rows hi → lo ≤ hi
    IsOrdered-le lo [] hi h = h
    IsOrdered-le lo (r ∷ rows) hi h = omega (arith, h.0, IsOrdered-le (id r + 1) rows hi h.1)

    -- An update that keeps the ids keeps the order.
    pub IsOrdered-update_rows :
        (where_row : A → Bool) (set_row : A → A)
        → ((row : A) → id (set_row row) ≡ id row)
        → (lo : ℕ) (rows : List A) (hi : ℕ) → IsOrdered lo rows hi
        → IsOrdered lo (update_rows where_row set_row rows) hi
    unfolding update_rows
    IsOrdered-update_rows where_row set_row keep lo [] hi h = h
    IsOrdered-update_rows where_row set_row keep lo (r ∷ rows) hi h =
        let rest = IsOrdered-update_rows where_row set_row keep (id r + 1) rows hi h.1 in
        elim (Bool-cases (where_row r)) [
          | inl hit ↦ rw (hit, keep r) (h.0, rest)
          | inr miss ↦ rw miss (h.0, rest)
        ]

    module _ (r : A) where
      -- The rows with the id of `r` are `r`.
      abbrev pub IsOnly : List A → Type ℓ
      IsOnly rows = All (λ row. (id row == id r) ≡ true → row ≡ r) rows

      IsOrdered-above :
          (lo : ℕ) (rows : List A) (hi : ℕ) → IsOrdered lo rows hi → id r < lo → IsOnly rows
      IsOrdered-above lo [] hi h lt = tt
      IsOrdered-above lo (row ∷ rows) hi h lt = (
        λ same. absurd (ground arith),
        IsOrdered-above (id row + 1) rows hi h.1 (omega (arith, h.0)),
      )

      pub IsOrdered-mem :
          (lo : ℕ) (rows : List A) (hi : ℕ) → IsOrdered lo rows hi → Memᴰ r rows → lo ≤ id r
      IsOrdered-mem lo [] hi h m = elim m [ ]
      IsOrdered-mem lo (row ∷ rows) hi h (Memᴰ.head e) = rw e h.0
      IsOrdered-mem lo (row ∷ rows) hi h (Memᴰ.tail m) =
          omega (arith, h.0, IsOrdered-mem (id row + 1) rows hi h.1 m)

      pub IsOrdered-IsOnly :
          (lo : ℕ) (rows : List A) (hi : ℕ) → IsOrdered lo rows hi → Memᴰ r rows → IsOnly rows
      IsOrdered-IsOnly lo [] hi h m = elim m [ ]
      IsOrdered-IsOnly lo (row ∷ rows) hi h (Memᴰ.head e) =
          (λ same. sym e, IsOrdered-above (id row + 1) rows hi h.1 (rw e (omega arith)))
      IsOrdered-IsOnly lo (row ∷ rows) hi h (Memᴰ.tail m) =
          let below = IsOrdered-mem (id row + 1) rows hi h.1 m in
          (λ same. absurd (ground arith), IsOrdered-IsOnly (id row + 1) rows hi h.1 m)

      -- A condition on the id of `r` that a row has is one that `r` has.
      pub any-IsOnly :
          (p : A → Bool)
          → ((row : A) → p row ≡ true → (id row == id r) ≡ true)
          → (rows : List A) → IsOnly rows
          → any p rows ≡ true
          → p r ≡ true
      any-IsOnly p same [] only h = absurd (ground arith)
      any-IsOnly p same (row ∷ rows) only h = elim (Bool-cases (p row)) [
        | inl hit ↦ rw (← only.0 (same row hit)) hit
        | inr miss ↦ any-IsOnly p same rows only.1 (rw miss at h)
      ]

      -- The row property after a change of the row `r` alone.
      pub All-update_rows-only {κ} :
          (P : A → Type κ) (set_row : A → A) (rows : List A)
          → IsOnly rows
          → P (set_row r)
          → All P rows
          → All P (update_rows (λ row. id row == id r) set_row rows)
      unfolding update_rows
      All-update_rows-only P set_row [] only p h = tt
      All-update_rows-only P set_row (row ∷ rows) only p h =
          let rest = All-update_rows-only P set_row rows only.1 p h.1 in
          elim (Bool-cases (id row == id r)) [
            | inl hit ↦ rw (hit, only.0 hit) (p, rest)
            | inr miss ↦ rw miss (h.0, rest)
          ]
