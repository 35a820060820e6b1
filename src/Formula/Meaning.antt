-- ===== src/Formula/Meaning.antt =====
-- What a formula means, with no state: the value at the last bar of a history, from the bars alone.
-- A history is newest first. `state_after` is the state that a node should have after a history.
use atrade.Prelude.{
  ℕ, zero, suc, ◌+◌, ◌≤◌, ◌≡◌, List, [], ◌∷◌, ◌++◌, Option, none, some, Bool, true, false,
  if◌then◌else◌, ltb, ◌>>=◌, length, any,
}
use atrade.Prelude.Int.{ℤ, pos, ◌+ℤ◌, ◌*ℤ◌}
use atrade.Formula.Floats.{Floats}
use atrade.Formula.Measure.{
  Measure, Extreme, RollingFunction, IntegerMath, to_exact, is_beaten_by, read_sum, read_mean,
  read_deviation, window_sum, window_mean, window_deviation, window_extreme, make_measure,
}
use atrade.Formula.Node.{
  Node, NautilusBar, CatalogClass, number_node, bar_field_node, scalar_unary, scalar_binary,
  rolling_node, lag_node, catalog_node, read_field, apply_unary, apply_binary,
}

-- The values of `g` at the last `n` bars of a history, oldest first; fewer at the start.
unfoldable pub trail : {B X : Type 0} → (List B → X) → ℕ → List B → List X
trail g zero h = []
trail g (suc n) [] = []
trail g (suc n) (b ∷ h) = trail g n h ++ g (b ∷ h) ∷ []

-- The history `n` bars ago.
unfoldable pub drop : {B : Type 0} → ℕ → List B → List B
drop zero h = h
drop (suc n) [] = []
drop (suc n) (b ∷ h) = drop n h

-- The values that are known.
abbrev pub knowns : {X : Type 0} → List (Option X) → List X
knowns [] = []
knowns (none ∷ xs) = knowns xs
knowns (some x ∷ xs) = x ∷ knowns xs

-- The function that a measure was made for.
abbrev pub function_of : {F : Type 0} → Measure F → RollingFunction
function_of (window_sum _) = RollingFunction.sum
function_of (window_mean _) = RollingFunction.mean
function_of (window_deviation _ _) = RollingFunction.std
function_of (window_extreme Extreme.maximum _) = RollingFunction.max
function_of (window_extreme Extreme.minimum _) = RollingFunction.min

module _ (fl : Floats) (im : IntegerMath) where
  open fl use {Float, lt}

  -- The exact sums of a window and of its squares.
  unfoldable pub exact_total : List Float → ℤ
  exact_total [] = pos 0
  exact_total (x ∷ xs) = to_exact fl im x +ℤ exact_total xs

  unfoldable pub exact_squares : List Float → ℤ
  exact_squares [] = pos 0
  exact_squares (x ∷ xs) = to_exact fl im x *ℤ to_exact fl im x +ℤ exact_squares xs

  -- One of the values beats `x`.
  abbrev pub beaten_by_one : Extreme → Float → List Float → Bool
  beaten_by_one e x [] = false
  beaten_by_one e x (y ∷ ys) = if is_beaten_by fl im e x y then true else beaten_by_one e x ys

  -- `y` is nearer to the extreme than `x`.
  abbrev pub is_better : Extreme → Float → Float → Bool
  is_better Extreme.maximum x y = lt x y
  is_better Extreme.minimum x y = lt y x

  -- The first value of a window that no later one is better than: its maximum, or its minimum.
  unfoldable pub extreme_of : Extreme → List Float → Option Float
  extreme_of e [] = none
  extreme_of e (x ∷ xs) = if any (is_better e x) xs then extreme_of e xs else some x

  -- The value of a full window from its values.
  unfoldable pub window_value : RollingFunction → List Float → Option Float
  window_value RollingFunction.sum xs = read_sum fl im (exact_total xs)
  window_value RollingFunction.mean xs = read_mean fl im (exact_total xs) (length xs)
  window_value RollingFunction.std xs =
      read_deviation fl im (exact_total xs) (exact_squares xs) (length xs)
  window_value RollingFunction.max xs = extreme_of Extreme.maximum xs
  window_value RollingFunction.min xs = extreme_of Extreme.minimum xs

  abbrev pub full_window_value : RollingFunction → ℕ → List Float → Option Float
  full_window_value f window xs = if ltb (length xs) window then none else window_value f xs

  -- The values of a window that no later value of it beats.
  unfoldable pub unbeaten : Extreme → List Float → List Float
  unbeaten e [] = []
  unbeaten e (x ∷ xs) = if beaten_by_one e x xs then unbeaten e xs else x ∷ unbeaten e xs

  -- The state of a measure that holds a window.
  unfoldable pub measure_of : RollingFunction → List Float → Measure Float
  measure_of RollingFunction.sum xs = window_sum (exact_total xs)
  measure_of RollingFunction.mean xs = window_mean (exact_total xs)
  measure_of RollingFunction.std xs = window_deviation (exact_total xs) (exact_squares xs)
  measure_of RollingFunction.max xs = window_extreme Extreme.maximum (unbeaten Extreme.maximum xs)
  measure_of RollingFunction.min xs = window_extreme Extreme.minimum (unbeaten Extreme.minimum xs)

abbrev pub History : Type 0 → Type 0
History F = List (NautilusBar F)

module _ (fl : Floats) (im : IntegerMath) (catalog : CatalogClass fl.Float) where
  open fl use {Float}
  open catalog use {Indicator, handle_bar, output}

  -- A catalog indicator after a history.
  unfoldable pub feed : Indicator → History Float → Indicator
  feed indicator [] = indicator
  feed indicator (b ∷ h) = handle_bar (feed indicator h) b

  unfoldable pub value : Node Float Indicator → History Float → Option Float
  value (number_node x) h = some x
  value (bar_field_node name) [] = none
  value (bar_field_node name) (b ∷ h) = some (read_field name b)
  value (scalar_unary f child) h = value child h >>= apply_unary fl f
  value (scalar_binary f left right) h =
      value left h >>= λ x. value right h >>= λ y. apply_binary fl f x y
  value (rolling_node measure child window _ _) h =
      full_window_value fl im (function_of measure) window (knowns (trail (value child) window h))
  value (lag_node child bars _) h = if ltb bars (length h) then value child (drop bars h) else none
  value (catalog_node indicator name _ _) h = output (feed indicator h) name

  unfoldable pub state_after : Node Float Indicator → History Float → Node Float Indicator
  state_after (number_node x) h = number_node x
  state_after (bar_field_node name) h = bar_field_node name
  state_after (scalar_unary f child) h = scalar_unary f (state_after child h)
  state_after (scalar_binary f left right) h =
      scalar_binary f (state_after left h) (state_after right h)
  state_after (rolling_node measure child window _ _) h =
      let values = trail (value child) window h in
      rolling_node (measure_of fl im (function_of measure) (knowns values)) (state_after child h)
        window values (length (knowns values))
  state_after (lag_node child bars _) h =
      lag_node (state_after child h) bars (trail (value child) (bars + 1) h)
  state_after (catalog_node indicator name bars window) h =
      catalog_node (feed indicator h) name bars window

  -- A node as its constructor makes it, with at least one bar in each window.
  abbrev pub IsFresh : Node Float Indicator → Type 0
  IsFresh (number_node x) = Unit
  IsFresh (bar_field_node name) = Unit
  IsFresh (scalar_unary f child) = IsFresh child
  IsFresh (scalar_binary f left right) = IsFresh left × IsFresh right
  IsFresh (rolling_node measure child window values known) =
      IsFresh child
      × (1 ≤ window)
      × (measure ≡ make_measure (function_of measure))
      × (values ≡ [])
      × (known ≡ 0)
  IsFresh (lag_node child bars values) = IsFresh child × (values ≡ [])
  IsFresh (catalog_node indicator name bars window) = Unit
