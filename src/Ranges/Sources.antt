-- ===== src/Ranges/Sources.antt =====
-- The merge rule of `assign_source_ranges`: each time goes to the first bar source that saved it.
use atrade.Prelude.{
  ℕ, ◌+◌, ◌≡◌, refl, Bool, true, false, ◌&&◌, ◌||◌, List, [], ◌∷◌, ◌++◌, map, leb, ltb, not,
  if◌then◌else◌, Bool-cases, inl, inr, arith, length, sym, ap, ◌∙◌, All, All-append,
}
use mathlib.Core.Path.{ap₂}
use mathlib.Core.List.{append-nil}
use atrade.Bar.{TimeRange}
use atrade.Ranges.{
  find_missing_ranges, SourceRange, Assigned, from_source, sort_by_start, assign_range,
  assign_ranges, assign_sources, clip, assign_source_ranges,
}
use atrade.Ranges.Counting.{
  contains, covers, count_at, covers-eq-count_at, count_at-append, count_at-sort_by_start, IsSorted,
  IsNonempty, sort_by_start-IsSorted, All-sort_by_start,
}
use atrade.Ranges.Missing.{count_at-find_missing_ranges, find_missing_ranges-IsNonempty}

-- The saved range gives the wanted time `t`.
abbrev saved_here : ℕ → TimeRange → TimeRange → Bool
saved_here t wanted saved = contains t saved && contains t wanted

and_or_right : (a b c : Bool) → (a && c) || (b && c) ≡ (a || b) && c
and_or_right true b true = refl
and_or_right true true false = refl
and_or_right true false false = refl
and_or_right false b c = refl

module _ {S : Type 0} where
  -- The bar sources of the source ranges that contain `t`, in their order.
  abbrev pub sources_at : ℕ → List (SourceRange S) → List S
  sources_at t [] = []
  sources_at t (p ∷ ps) =
      if contains t p.time_range then p.bar_source ∷ sources_at t ps else sources_at t ps

  -- The first bar source that saved `t`, if any did.
  abbrev pub first_source : ℕ → List (S × List TimeRange) → List S
  first_source t [] = []
  first_source t ((source, saved) ∷ rest) =
      if covers t saved then source ∷ [] else first_source t rest

  -- A bar source takes what no bar source before it took.
  abbrev claim : List S → Bool → S → List S
  claim [] true source = source ∷ []
  claim [] false source = []
  claim (taken ∷ more) _ _ = taken ∷ more

  abbrev isnil : List S → Bool
  isnil [] = true
  isnil (_ ∷ _) = false

  sources_at-append :
      (t : ℕ) (ps qs : List (SourceRange S))
      → sources_at t (ps ++ qs) ≡ sources_at t ps ++ sources_at t qs
  sources_at-append t [] qs = refl
  sources_at-append t (p ∷ ps) qs = ground (arith, sources_at-append t ps qs)

  sources_at-map_none :
      (t : ℕ) (source : S) (rs : List TimeRange)
      → count_at t rs ≡ 0
      → sources_at t (map (from_source source) rs) ≡ []
  sources_at-map_none t source [] h = refl
  sources_at-map_none t source (r ∷ rs) h = ground (arith, sources_at-map_none t source rs)

  sources_at-map_once :
      (t : ℕ) (source : S) (rs : List TimeRange)
      → count_at t rs ≡ 1
      → sources_at t (map (from_source source) rs) ≡ source ∷ []
  sources_at-map_once t source [] h = absurd (omega arith)
  sources_at-map_once t source (r ∷ rs) h =
      ground (arith, sources_at-map_none t source rs, sources_at-map_once t source rs)

  record Inv (t : ℕ) (state : Assigned S) : Type 0 where
    sorted : IsSorted state.1
    nonempty : All IsNonempty state.1
    counted : count_at t state.1 ≡ length (sources_at t state.0)

  claim_append :
      (taken new : List S) (saved_here : Bool) (source : S)
      → new ≡ (if saved_here && isnil taken then source ∷ [] else [])
      → taken ++ new ≡ claim taken saved_here source
  claim_append [] new true source h = h
  claim_append [] new false source h = h
  claim_append (x ∷ taken) new b source h = rw h (ground (arith, append-nil (x ∷ taken)))

  -- Of the new ranges exactly one contains `t` if it was free and is saved here, else none.
  claim_new :
      (t : ℕ) (source : S) (out : List (SourceRange S)) (new : List TimeRange) (saved_here : Bool)
      → count_at t new ≡ (if saved_here && isnil (sources_at t out) then 1 else 0)
      → sources_at t (out ++ map (from_source source) new)
        ≡ claim (sources_at t out) saved_here source
  claim_new t source out new b h = rw (sources_at-append t out (map (from_source source) new)) (
      claim_append (sources_at t out) _ b source
        (ground (arith, sources_at-map_none t source new, sources_at-map_once t source new)))

  isnil-covers :
      (t : ℕ) (out : List (SourceRange S)) (covered : List TimeRange)
      → count_at t covered ≡ length (sources_at t out)
      → not (covers t covered) ≡ isnil (sources_at t out)
  isnil-covers t out covered h = rw (covers-eq-count_at t covered, h) (len-isnil (sources_at t out))
    where
      len-isnil : (xs : List S) → not (ltb 0 (length xs)) ≡ isnil xs
      len-isnil [] = refl
      len-isnil (x ∷ xs) = ground arith

  length-claim :
      (taken : List S) (b : Bool) (source : S)
      → length (claim taken b source) ≡ length taken + (if b && isnil taken then 1 else 0)
  length-claim [] true source = refl
  length-claim [] false source = refl
  length-claim (x ∷ taken) b source = ground arith

  claim-false : (taken : List S) (source : S) → claim taken false source ≡ taken
  claim-false [] source = refl
  claim-false (x ∷ taken) source = refl

  claim-claim :
      (taken : List S) (a b : Bool) (source : S)
      → claim (claim taken a source) b source ≡ claim taken (a || b) source
  claim-claim [] true b source = refl
  claim-claim [] false b source = refl
  claim-claim (x ∷ taken) a b source = refl

  module _ (t : ℕ) (wanted : TimeRange) where
    -- The state after a saved range that overlaps the requested range.
    abbrev overlapped : S → TimeRange → Assigned S → Assigned S
    overlapped source saved (out, covered) =
        let new = find_missing_ranges (clip wanted saved) covered in
        (out ++ map (from_source source) new, sort_by_start (covered ++ new))

    count_at-new :
        (saved : TimeRange) {out : List (SourceRange S)} {covered : List TimeRange}
        → Inv t (out, covered)
        → IsNonempty (clip wanted saved)
        → count_at t (find_missing_ranges (clip wanted saved) covered)
          ≡ (if saved_here t wanted saved && isnil (sources_at t out) then 1 else 0)
    count_at-new saved {out} {covered} inv h =
        count_at-find_missing_ranges t (clip wanted saved) covered inv.sorted inv.nonempty h
        ∙ ap (λ (b : Bool). if b then 1 else 0)
            (ap₂ (◌&&◌) clipped (isnil-covers t out covered inv.counted))
      where
        clipped : contains t (clip wanted saved) ≡ saved_here t wanted saved
        clipped = ground arith

    overlapped-claim :
        (source : S) (saved : TimeRange) (out : List (SourceRange S)) (covered : List TimeRange)
        → Inv t (out, covered)
        → IsNonempty (clip wanted saved)
        → sources_at t (overlapped source saved (out, covered)).0
          ≡ claim (sources_at t out) (saved_here t wanted saved) source
    overlapped-claim source saved out covered inv h =
        claim_new t source out (find_missing_ranges (clip wanted saved) covered)
          (saved_here t wanted saved) (count_at-new saved inv h)

    overlapped-Inv :
        (source : S) (saved : TimeRange) (out : List (SourceRange S)) (covered : List TimeRange)
        → Inv t (out, covered)
        → IsNonempty (clip wanted saved)
        → Inv t (overlapped source saved (out, covered))
    overlapped-Inv source saved out covered inv h =
        let new = find_missing_ranges (clip wanted saved) covered in
        record {
          sorted = sort_by_start-IsSorted (covered ++ new);
          nonempty = All-sort_by_start (covered ++ new) (
              All-append IsNonempty covered new inv.nonempty
                (find_missing_ranges-IsNonempty (clip wanted saved) covered h));
          counted = rw (overlapped-claim source saved out covered inv h) (
              omega (
                arith,
                count_at-sort_by_start t (covered ++ new),
                count_at-append t covered new,
                count_at-new saved inv h,
                length-claim (sources_at t out) (saved_here t wanted saved) source,
                inv.counted,
              ));
        }

    -- One saved range: its bar source takes `t` if the range has it and it was free.
    assign_range-claim :
        (source : S) (saved : TimeRange) (state : Assigned S)
        → Inv t state
        → Inv t (assign_range wanted source saved state)
          × (sources_at t (assign_range wanted source saved state).0
              ≡ claim (sources_at t state.0) (saved_here t wanted saved) source)
    unfolding assign_range
    assign_range-claim source saved (out, covered) inv =
        elim (Bool-cases (leb (clip wanted saved).end_utc (clip wanted saved).start_utc)) [
          | inl empty ↦ rw (empty, outside empty) (inv, sym (claim-false (sources_at t out) source))
          | inr overlap ↦ rw overlap (
            overlapped-Inv source saved out covered inv (ground arith),
            overlapped-claim source saved out covered inv (ground arith),
          )
        ]
      where
        outside :
            leb (clip wanted saved).end_utc (clip wanted saved).start_utc ≡ true
            → saved_here t wanted saved ≡ false
        outside h = ground arith

    assign_ranges-claim :
        (source : S) (saved : List TimeRange) (state : Assigned S)
        → Inv t state
        → Inv t (assign_ranges wanted source saved state)
          × (sources_at t (assign_ranges wanted source saved state).0
              ≡ claim (sources_at t state.0) (covers t saved && contains t wanted) source)
    unfolding assign_ranges
    assign_ranges-claim source [] state inv = (inv, sym (claim-false (sources_at t state.0) source))
    assign_ranges-claim source (r ∷ saved) state inv =
        let (inv', head) = assign_range-claim source r state inv in
        let (inv'', tail) =
          assign_ranges-claim source saved (assign_range wanted source r state) inv' in
        (
          inv'',
          tail
              ∙ ap (λ (taken : List S). claim taken (covers t saved && contains t wanted) source)
                  head
              ∙ claim-claim (sources_at t state.0) (saved_here t wanted r)
                  (covers t saved && contains t wanted) source
              ∙ ap (λ (b : Bool). claim (sources_at t state.0) b source)
                  (and_or_right (contains t r) (covers t saved) (contains t wanted)),
        )

    abbrev settle : List S → List S → List S
    settle [] found = found
    settle (x ∷ taken) _ = x ∷ taken

    abbrev found : List (S × List TimeRange) → List S
    found sources = if contains t wanted then first_source t sources else []

    settle-claim :
        (taken : List S) (source : S) (saved : List TimeRange) (rest : List (S × List TimeRange))
        → settle (claim taken (covers t saved && contains t wanted) source) (found rest)
          ≡ settle taken (found ((source, saved) ∷ rest))
    settle-claim [] source saved rest = ground arith
    settle-claim (x ∷ taken) source saved rest = refl

    settle-nil : (taken : List S) → taken ≡ settle taken []
    settle-nil [] = refl
    settle-nil (x ∷ taken) = refl

    assign_sources-settle :
        (sources : List (S × List TimeRange)) (state : Assigned S)
        → Inv t state
        → sources_at t (assign_sources wanted sources state).0
          ≡ settle (sources_at t state.0) (found sources)
    unfolding assign_sources
    assign_sources-settle [] state inv = elim (Bool-cases (contains t wanted)) [
      | inl inside ↦ rw inside (settle-nil (sources_at t state.0))
      | inr outside ↦ rw outside (settle-nil (sources_at t state.0))
    ]
    assign_sources-settle ((source, saved) ∷ sources) state inv =
        let (inv', head) = assign_ranges-claim source saved state inv in
        assign_sources-settle sources (assign_ranges wanted source saved state) inv'
        ∙ ap (λ (taken : List S). settle taken (found sources)) head
        ∙ settle-claim (sources_at t state.0) source saved sources

  -- Each time of the requested range lies in exactly one of the source ranges if a bar source saved
  -- it, that of the first such bar source in the source order, and in none if no bar source saved
  -- it. A time outside the requested range lies in none.
  pub sources_at-assign_source_ranges :
      (t : ℕ) (wanted : TimeRange) (sources : List (S × List TimeRange))
      → sources_at t (assign_source_ranges wanted sources)
        ≡ (if contains t wanted then first_source t sources else [])
  unfolding assign_source_ranges
  sources_at-assign_source_ranges t wanted sources =
      assign_sources-settle t wanted sources ([], [])
        (record { sorted = tt; nonempty = tt; counted = refl })
