-- ===== src/Ranges/Counting.antt =====
-- How many ranges of a list contain a time, and what the list operations do to that count.
use atrade.Prelude.{
  ℕ, ◌+◌, ◌≤◌, ◌<◌, ◌≡◌, refl, Bool, ◌&&◌, ◌||◌, List, [], ◌∷◌, ◌++◌, ltb, leb, if◌then◌else◌,
  arith, All,
}
use atrade.Bar.{TimeRange}
use atrade.Ranges.{insert_by_start, sort_by_start}

-- `t` lies in the half-open range.
abbrev pub contains : ℕ → TimeRange → Bool
contains t r = leb r.start_utc t && ltb t r.end_utc

-- One of the ranges contains `t`.
abbrev pub covers : ℕ → List TimeRange → Bool
covers t [] = Bool.false
covers t (r ∷ rs) = contains t r || covers t rs

abbrev pub count_at : ℕ → List TimeRange → ℕ
count_at t [] = 0
count_at t (r ∷ rs) = (if contains t r then 1 else 0) + count_at t rs

-- Every start from here on is at least `lo`.
abbrev pub StartsFrom : ℕ → List TimeRange → Type 0
StartsFrom lo [] = Unit
StartsFrom lo (r ∷ rs) = (lo ≤ r.start_utc) × StartsFrom r.start_utc rs

-- Ordered by start.
abbrev pub IsSorted : List TimeRange → Type 0
IsSorted = StartsFrom 0

abbrev pub IsNonempty : TimeRange → Type 0
IsNonempty r = r.start_utc < r.end_utc

pub count_at-append :
    (t : ℕ) (xs ys : List TimeRange) → count_at t (xs ++ ys) ≡ count_at t xs + count_at t ys
count_at-append t [] ys = omega arith
count_at-append t (x ∷ xs) ys = omega (arith, count_at-append t xs ys)

pub covers-eq-count_at : (t : ℕ) (rs : List TimeRange) → covers t rs ≡ ltb 0 (count_at t rs)
covers-eq-count_at t [] = refl
covers-eq-count_at t (r ∷ rs) = ground (arith, covers-eq-count_at t rs)

count_at-insert_by_start :
    (t : ℕ) (r : TimeRange) (rs : List TimeRange)
    → count_at t (insert_by_start r rs) ≡ count_at t (r ∷ rs)
unfolding insert_by_start
count_at-insert_by_start t r [] = refl
count_at-insert_by_start t r (s ∷ rs) = ground (arith, count_at-insert_by_start t r rs)

pub count_at-sort_by_start :
    (t : ℕ) (rs : List TimeRange) → count_at t (sort_by_start rs) ≡ count_at t rs
unfolding sort_by_start
count_at-sort_by_start t [] = refl
count_at-sort_by_start t (r ∷ rs) =
    omega (arith, count_at-insert_by_start t r (sort_by_start rs), count_at-sort_by_start t rs)

StartsFrom-insert_by_start :
    (lo : ℕ) (r : TimeRange) (rs : List TimeRange)
    → lo ≤ r.start_utc
    → StartsFrom lo rs
    → StartsFrom lo (insert_by_start r rs)
unfolding insert_by_start
StartsFrom-insert_by_start lo r [] h k = (h, tt)
StartsFrom-insert_by_start lo r (s ∷ rs) h k =
    ground (arith, StartsFrom-insert_by_start s.start_utc r rs)

pub sort_by_start-IsSorted : (rs : List TimeRange) → IsSorted (sort_by_start rs)
unfolding sort_by_start
sort_by_start-IsSorted [] = tt
sort_by_start-IsSorted (r ∷ rs) =
    StartsFrom-insert_by_start 0 r (sort_by_start rs) (omega arith) (sort_by_start-IsSorted rs)

All-insert_by_start :
    (r : TimeRange) (rs : List TimeRange)
    → IsNonempty r
    → All IsNonempty rs
    → All IsNonempty (insert_by_start r rs)
unfolding insert_by_start
All-insert_by_start r [] h k = (h, tt)
All-insert_by_start r (s ∷ rs) h k = ground (arith, All-insert_by_start r rs)

pub All-sort_by_start :
    (rs : List TimeRange) → All IsNonempty rs → All IsNonempty (sort_by_start rs)
unfolding sort_by_start
All-sort_by_start [] h = tt
All-sort_by_start (r ∷ rs) h =
    All-insert_by_start r (sort_by_start rs) h.0 (All-sort_by_start rs h.1)
