-- ===== src/Formula/Window.antt =====
-- A measure that adds the new values and removes the oldest ones holds its window.
use atrade.Prelude.{◌≡◌, refl, List, [], ◌∷◌, ◌++◌, some, length}
use atrade.Prelude.Int.{◌+ℤ◌, ◌-ℤ◌, ◌*ℤ◌, int_laws}
use atrade.Formula.Floats.{Floats, FloatOrder}
use atrade.Formula.Measure.{
  RollingFunction, mean, max, min, sum, std, maximum, minimum, IntegerMath, measure_add,
  measure_remove, measure_read, to_exact,
}
use atrade.Formula.Meaning.{exact_total, exact_squares, measure_of, window_value}
use atrade.Formula.Extreme.{unbeaten-append, remove_kept-unbeaten, first_kept-unbeaten}

module _ (fl : Floats) (im : IntegerMath) where
  open fl use {Float}

  exact_total-append :
      (xs : List Float) (v : Float)
      → exact_total fl im (xs ++ v ∷ []) ≡ exact_total fl im xs +ℤ to_exact fl im v
  unfolding exact_total
  exact_total-append [] v = omega int_laws
  exact_total-append (x ∷ xs) v = rw (exact_total-append xs v) (omega int_laws)

  exact_squares-append :
      (xs : List Float) (v : Float)
      → exact_squares fl im (xs ++ v ∷ [])
        ≡ exact_squares fl im xs +ℤ to_exact fl im v *ℤ to_exact fl im v
  unfolding exact_squares
  exact_squares-append [] v = omega int_laws
  exact_squares-append (x ∷ xs) v = rw (exact_squares-append xs v) (omega int_laws)

  exact_total-remove :
      (x : Float) (xs : List Float)
      → exact_total fl im (x ∷ xs) -ℤ to_exact fl im x ≡ exact_total fl im xs
  unfolding exact_total
  exact_total-remove x xs = omega int_laws

  exact_squares-remove :
      (x : Float) (xs : List Float)
      → exact_squares fl im (x ∷ xs) -ℤ to_exact fl im x *ℤ to_exact fl im x
        ≡ exact_squares fl im xs
  unfolding exact_squares
  exact_squares-remove x xs = omega int_laws

module _ (fl : Floats) (im : IntegerMath) (order : FloatOrder fl) where
  open fl use {Float}

  -- A new value is added to the window that the measure holds.
  pub measure_add-measure_of :
      (f : RollingFunction) (xs : List Float) (v : Float)
      → measure_add fl im (measure_of fl im f xs) v ≡ measure_of fl im f (xs ++ v ∷ [])
  unfolding measure_add measure_of
  measure_add-measure_of sum xs v = rw (exact_total-append fl im xs v)
  measure_add-measure_of mean xs v = rw (exact_total-append fl im xs v)
  measure_add-measure_of std xs v =
      rw (exact_total-append fl im xs v, exact_squares-append fl im xs v)
  measure_add-measure_of max xs v = rw (unbeaten-append fl im order maximum v xs)
  measure_add-measure_of min xs v = rw (unbeaten-append fl im order minimum v xs)

  -- The oldest value leaves the window, and no IndexError is raised.
  pub measure_remove-measure_of :
      (f : RollingFunction) (x : Float) (xs : List Float)
      → measure_remove fl im (measure_of fl im f (x ∷ xs)) x ≡ some (measure_of fl im f xs)
  unfolding measure_remove measure_of
  measure_remove-measure_of sum x xs = rw (exact_total-remove fl im x xs)
  measure_remove-measure_of mean x xs = rw (exact_total-remove fl im x xs)
  measure_remove-measure_of std x xs =
      rw (exact_total-remove fl im x xs, exact_squares-remove fl im x xs)
  measure_remove-measure_of max x xs = remove_kept-unbeaten fl im order maximum x xs
  measure_remove-measure_of min x xs = remove_kept-unbeaten fl im order minimum x xs

  -- The measure of a window that is not empty reads the value of the window.
  pub measure_read-measure_of :
      (f : RollingFunction) (x : Float) (xs : List Float)
      → measure_read fl im (measure_of fl im f (x ∷ xs)) (length (x ∷ xs))
        ≡ some (window_value fl im f (x ∷ xs))
  unfolding measure_read measure_of window_value
  measure_read-measure_of sum x xs = refl
  measure_read-measure_of mean x xs = refl
  measure_read-measure_of std x xs = refl
  measure_read-measure_of max x xs = first_kept-unbeaten fl im order maximum x xs
  measure_read-measure_of min x xs = first_kept-unbeaten fl im order minimum x xs
