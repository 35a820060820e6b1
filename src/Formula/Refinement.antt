-- ===== src/Formula/Refinement.antt =====
-- The nodes compute what the formula means: `update` after any history gives the state and the value
-- that the meaning says.
use atrade.Prelude.{
  ℕ, zero, suc, ◌≤◌, ◌≡◌, refl, List, [], ◌∷◌, ◌++◌, Option, none, some, length, length-append, ap,
  arith, ltb, Bool-cases, inl, inr,
}
use mathlib.Core.List.{append-nil}
use native.Mathlib.Numerals.{add-one}
use atrade.Formula.Floats.{Floats, FloatOrder}
use atrade.Formula.Measure.{Measure, RollingFunction, IntegerMath, measure_read}
use atrade.Formula.Node.{
  Node, NautilusBar, CatalogClass, number_node, bar_field_node, scalar_unary, scalar_binary,
  rolling_node, lag_node, catalog_node, update, drop_oldest, take_in, read_window_value, expire,
}
use atrade.Formula.Meaning.{
  trail, drop, knowns, function_of, measure_of, full_window_value, window_value, History, feed,
  value, state_after, IsFresh,
}
use atrade.Formula.Trail.{
  length-trail, trail-cons, trail-suc, append_bounded-trail, oldest_value-trail,
}
use atrade.Formula.Window.{
  measure_add-measure_of, measure_remove-measure_of, measure_read-measure_of,
}

knowns-append :
    {X : Type 0} (xs : List (Option X)) (v : Option X)
    → knowns (xs ++ v ∷ []) ≡ knowns xs ++ knowns (v ∷ [])
knowns-append [] v = refl
knowns-append (none ∷ xs) v = knowns-append xs v
knowns-append (some x ∷ xs) v = ap (λ ys. x ∷ ys) (knowns-append xs v)

length-knowns-le : {X : Type 0} (xs : List (Option X)) → length (knowns xs) ≤ length xs
length-knowns-le [] = omega arith
length-knowns-le (none ∷ xs) = omega (arith, length-knowns-le xs)
length-knowns-le (some x ∷ xs) = omega (arith, length-knowns-le xs)

module _ (fl : Floats) (im : IntegerMath) (order : FloatOrder fl) where
  open fl use {Float}

  -- The measure and the count of the known values of a window.
  abbrev holding : RollingFunction → List (Option Float) → Measure Float × ℕ
  holding f values = (measure_of fl im f (knowns values), length (knowns values))

  expire-holding :
      (f : RollingFunction) (x : Option Float) (values : List (Option Float))
      → expire fl im
          (measure_of fl im f (knowns (x ∷ values)))
          (length (knowns (x ∷ values)))
          (x ∷ values)
        ≡ some (holding f values)
  unfolding expire
  expire-holding f none values = refl
  expire-holding f (some x) values =
      rw (measure_remove-measure_of fl im order f x (knowns values)) (ground arith)

  take_in-holding :
      (f : RollingFunction) (values : List (Option Float)) (v : Option Float)
      → take_in fl im (measure_of fl im f (knowns values)) (length (knowns values)) v
        ≡ holding f (values ++ v ∷ [])
  unfolding take_in
  take_in-holding f values none = rw (knowns-append values none, append-nil (knowns values))
  take_in-holding f values (some x) = rw (
    knowns-append values (some x),
    measure_add-measure_of fl im order f (knowns values) x,
    length-append (knowns values) (x ∷ []),
  )

  drop_oldest-trail :
      {B : Type 0} (f : RollingFunction) (g : List B → Option Float) (n : ℕ) (h : List B)
      → drop_oldest fl im
          (measure_of fl im f (knowns (trail g (suc n) h)))
          (suc n)
          (trail g (suc n) h)
          (length (knowns (trail g (suc n) h)))
        ≡ some (holding f (trail g n h))
  unfolding drop_oldest
  drop_oldest-trail f g n h = elim (trail-suc g n h) [
    | inl (short, same) ↦ rw same (ground (arith, length-trail g n h))
    | inr (long, more) ↦
        rw more (ground (arith, length-trail g n h, expire-holding f (g (drop n h)) (trail g n h)))
  ]

  read_window_value-measure_of :
      (f : RollingFunction) (n : ℕ) (xs : List Float)
      → length xs ≤ suc n
      → read_window_value fl im (measure_of fl im f xs) (suc n) (length xs)
        ≡ some (full_window_value fl im f (suc n) xs)
  unfolding read_window_value
  read_window_value-measure_of f n [] p = ground arith
  read_window_value-measure_of f n (x ∷ xs) p = elim (Bool-cases (ltb (suc (length xs)) (suc n))) [
    | inl partial ↦ rw partial
    | inr full ↦ rw full (same_window (suc n) (ground arith))
  ]
    where
      same_window :
          (window : ℕ)
          → suc (length xs) ≡ window
          → measure_read fl im (measure_of fl im f (x ∷ xs)) window
            ≡ some (window_value fl im f (x ∷ xs))
      same_window window e = rw (← e) (measure_read-measure_of fl im order f x xs)

module _ (fl : Floats) (im : IntegerMath) (order : FloatOrder fl)
    (catalog : CatalogClass fl.Float) where
  open fl use {Float}
  open catalog use {Indicator}

  abbrev after : Node Float Indicator → History Float → Node Float Indicator
  after = state_after fl im catalog

  abbrev value_at : Node Float Indicator → History Float → Option Float
  value_at = value fl im catalog

  -- One bar: from the state of a fresh node after a history, `update` raises no IndexError, gives the
  -- value that the formula means for the longer history, and leaves the state after it, if the floats
  -- are ordered as FloatOrder says.
  pub update-state_after :
      (n : Node Float Indicator) (b : NautilusBar Float) (h : History Float)
      → IsFresh fl im catalog n
      → update fl im catalog b (after n h) ≡ some (after n (b ∷ h), value_at n (b ∷ h))
  unfolding update state_after value feed
  update-state_after (number_node x) b h fresh = refl
  update-state_after (bar_field_node name) b h fresh = refl
  update-state_after (scalar_unary f child) b h fresh = rw (update-state_after child b h fresh)
  update-state_after (scalar_binary f left right) b h fresh =
      rw (update-state_after left b h fresh.0, update-state_after right b h fresh.1)
  update-state_after (rolling_node m child zero vs k) b h fresh = absurd (omega arith)
  update-state_after (rolling_node m child (suc w) vs k) b h fresh =
      let f = function_of m in
      let g = value_at child in
      let window = trail g w h ++ g (b ∷ h) ∷ [] in
      rw (
        drop_oldest-trail fl im order f g w h,
        update-state_after child b h fresh.0,
        take_in-holding fl im order f (trail g w h) (g (b ∷ h)),
        append_bounded-trail g w b h,
        trail-cons g w b h,
        read_window_value-measure_of fl im order f w (knowns window) (
            fits window
              (omega (arith, length-append (trail g w h) (g (b ∷ h) ∷ []), length-trail g w h))),
      )
    where
      fits : (xs : List (Option Float)) → length xs ≤ suc w → length (knowns xs) ≤ suc w
      fits xs p = omega (arith, length-knowns-le xs)
  update-state_after (lag_node child bars vs) b h fresh = rw (
    add-one,
    update-state_after child b h fresh.0,
    append_bounded-trail (value_at child) bars b h,
    oldest_value-trail (value_at child) bars (b ∷ h),
  )
  update-state_after (catalog_node indicator name bars window) b h fresh = refl
