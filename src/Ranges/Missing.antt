-- ===== src/Ranges/Missing.antt =====
-- `find_missing_ranges` gives the uncovered part of a range, each time once.
use atrade.Prelude.{
  ℕ, ◌+◌, ◌<◌, ◌≡◌, refl, not, ◌&&◌, List, [], ◌∷◌, max, if◌then◌else◌, arith, All, All-append, min,
  false, leb, ltb, Bool-cases, inl, inr,
}
use atrade.Bar.{TimeRange}
use atrade.Ranges.{range, append_gap, missing_from, find_missing_ranges}
use atrade.Ranges.Counting.{
  contains, covers, count_at, count_at-append, StartsFrom, IsSorted, IsNonempty,
}

abbrev pub count_missing : ℕ → TimeRange → List TimeRange → ℕ
count_missing t r saved = if contains t r && not (covers t saved) then 1 else 0

-- No range that starts later covers `t`.
covers_before :
    (t lo : ℕ) (saved : List TimeRange) → StartsFrom lo saved → t < lo → covers t saved ≡ false
covers_before t lo [] s h = refl
covers_before t lo (r ∷ saved) s h = ground (arith, covers_before t r.start_utc saved s.1)

count_at-append_gap :
    (t end_utc cursor : ℕ) (r : TimeRange) (missing : List TimeRange)
    → count_at t (append_gap end_utc cursor r missing)
      ≡ count_at t missing + (if leb cursor t && ltb t (min r.start_utc end_utc) then 1 else 0)
unfolding append_gap
count_at-append_gap t e c r missing =
    ground (arith, count_at-append t missing (range c (min r.start_utc e) ∷ []))

-- The gap before a saved range and the missing part after it are the missing part.
gap_and_rest :
    (t e c : ℕ) (r : TimeRange) (saved : List TimeRange)
    → StartsFrom r.start_utc saved
    → IsNonempty r
    → c < e
    → (if leb c t && ltb t (min r.start_utc e) then 1 else 0)
        + (if leb e (max c r.end_utc) then 0 else count_missing t (range (max c r.end_utc) e) saved)
      ≡ count_missing t (range c e) (r ∷ saved)
gap_and_rest t e c r saved s v h = ground (arith, covers_before t r.start_utc saved s)

count_at-missing_from :
    (t end_utc lo cursor : ℕ) (saved missing : List TimeRange)
    → StartsFrom lo saved
    → All IsNonempty saved
    → cursor < end_utc
    → count_at t (missing_from end_utc saved cursor missing)
      ≡ count_at t missing + count_missing t (range cursor end_utc) saved
unfolding missing_from
count_at-missing_from t e lo c [] missing s v h =
    ground (arith, count_at-append t missing (range c e ∷ []))
count_at-missing_from t e lo c (r ∷ saved) missing s v h =
    let gap = count_at-append_gap t e c r missing in
    let both = gap_and_rest t e c r saved s.1 v.0 h in
    elim (Bool-cases (leb e (max c r.end_utc))) [
      | inl done ↦ rw done (omega (arith, gap, rw done at both))
      | inr more ↦ rw more (
          omega (
            arith,
            gap,
            rw more at both,
            count_at-missing_from t e r.start_utc (max c r.end_utc) saved (append_gap e c r missing)
                s.1 v.1 (ground arith),
          ))
    ]

-- Each time of the requested range that no saved range covers lies in exactly one of the missing
-- ranges, and no other time lies in any, if the saved ranges are ordered by start and no range is
-- empty.
pub count_at-find_missing_ranges :
    (t : ℕ) (r : TimeRange) (saved : List TimeRange)
    → IsSorted saved
    → All IsNonempty saved
    → IsNonempty r
    → count_at t (find_missing_ranges r saved) ≡ count_missing t r saved
unfolding find_missing_ranges
count_at-find_missing_ranges t r saved s v h =
    omega (arith, count_at-missing_from t r.end_utc 0 r.start_utc saved [] s v h)

append_gap-IsNonempty :
    (end_utc cursor : ℕ) (r : TimeRange) (missing : List TimeRange)
    → cursor < end_utc
    → All IsNonempty missing
    → All IsNonempty (append_gap end_utc cursor r missing)
unfolding append_gap
append_gap-IsNonempty e c r missing h k =
    ground (arith, All-append IsNonempty missing (range c (min r.start_utc e) ∷ []) k)

missing_from-IsNonempty :
    (end_utc cursor : ℕ) (saved missing : List TimeRange)
    → cursor < end_utc
    → All IsNonempty missing
    → All IsNonempty (missing_from end_utc saved cursor missing)
unfolding missing_from
missing_from-IsNonempty e c [] missing h k =
    All-append IsNonempty missing (range c e ∷ []) k (h, tt)
missing_from-IsNonempty e c (r ∷ saved) missing h k =
    let pushed = append_gap-IsNonempty e c r missing h k in
    elim (Bool-cases (leb e (max c r.end_utc))) [
      | inl done ↦ rw done pushed
      | inr more ↦ rw more (
          missing_from-IsNonempty e (max c r.end_utc) saved (append_gap e c r missing)
            (ground arith) pushed)
    ]

pub find_missing_ranges-IsNonempty :
    (r : TimeRange) (saved : List TimeRange)
    → IsNonempty r
    → All IsNonempty (find_missing_ranges r saved)
unfolding find_missing_ranges
find_missing_ranges-IsNonempty r saved h =
    missing_from-IsNonempty r.end_utc r.start_utc saved [] h tt
