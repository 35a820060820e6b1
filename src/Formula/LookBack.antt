-- ===== src/Formula/LookBack.antt =====
-- The look-back of a formula: the bars before it change nothing.
use atrade.Prelude.{
  ℕ, zero, suc, ◌+◌, ◌-◌, ◌≤◌, ◌<◌, ◌≡◌, refl, List, [], ◌∷◌, ◌++◌, Option, length, length-append,
  ap, arith, true, ltb,
}
use mathlib.Core.Path.{ap₂}
use atrade.Formula.Floats.{Floats}
use atrade.Formula.Measure.{IntegerMath}
use atrade.Formula.Node.{
  Node, CatalogClass, number_node, bar_field_node, scalar_unary, scalar_binary, rolling_node,
  lag_node, catalog_node, look_back,
}
use atrade.Formula.Meaning.{
  trail, drop, knowns, function_of, full_window_value, History, feed, value, IsFresh,
}

module _ {B X : Type 0} (g : List B → X) (bars : ℕ) (older older' : List B) where
  -- `g` reads at most `bars` bars, and at least one.
  abbrev ReadsAtMost : Type 0
  ReadsAtMost =
      (recent : List B) → bars ≤ length recent → g (recent ++ older) ≡ g (recent ++ older')

  trail-recent :
      (n : ℕ) (recent : List B)
      → 1 ≤ bars
      → ReadsAtMost
      → bars + n ≤ suc (length recent)
      → trail g n (recent ++ older) ≡ trail g n (recent ++ older')
  unfolding trail
  trail-recent zero recent pos reads enough = refl
  trail-recent (suc n) [] pos reads enough = absurd (omega arith)
  trail-recent (suc n) (b ∷ recent) pos reads enough =
      ap₂ (λ (xs : List X) (x : X). xs ++ x ∷ []) (trail-recent n recent pos reads (omega arith))
        (reads (b ∷ recent) (omega arith))

drop-append :
    {B : Type 0} (n : ℕ) (recent older : List B)
    → n ≤ length recent
    → drop n (recent ++ older) ≡ drop n recent ++ older
unfolding drop
drop-append zero recent older p = refl
drop-append (suc n) [] older p = absurd (omega arith)
drop-append (suc n) (b ∷ recent) older p = drop-append n recent older (omega arith)

lt-length-append :
    {B : Type 0} (n : ℕ) (recent older : List B)
    → n < length recent
    → ltb n (length (recent ++ older)) ≡ true
lt-length-append n recent older p = ground (arith, length-append recent older)

length-drop : {B : Type 0} (n : ℕ) (h : List B) → length (drop n h) ≡ length h - n
unfolding drop
length-drop zero h = omega arith
length-drop (suc n) [] = omega arith
length-drop (suc n) (b ∷ h) = omega (arith, length-drop n h)

module _ (fl : Floats) (im : IntegerMath) (catalog : CatalogClass fl.Float) where
  open fl use {Float}
  open catalog use {Indicator, output}

  -- The catalog indicators of a formula read no bar before their look-back, which is at least 1.
  -- This holds of the averages over a window. Of the recursive averages (EMA, RSI, ATR, MACD) it
  -- does not hold exactly.
  abbrev pub HasLocalIndicators : Node Float Indicator → Type 0
  HasLocalIndicators (number_node x) = Unit
  HasLocalIndicators (bar_field_node name) = Unit
  HasLocalIndicators (scalar_unary f child) = HasLocalIndicators child
  HasLocalIndicators (scalar_binary f left right) =
      HasLocalIndicators left × HasLocalIndicators right
  HasLocalIndicators (rolling_node m child window vs k) = HasLocalIndicators child
  HasLocalIndicators (lag_node child bars vs) = HasLocalIndicators child
  HasLocalIndicators (catalog_node indicator name bars window) =
      (1 ≤ bars)
      × ((recent older older' : History Float)
          → bars ≤ length recent
          → output (feed fl im catalog indicator (recent ++ older)) name
            ≡ output (feed fl im catalog indicator (recent ++ older')) name)

  look_back_pos :
      (n : Node Float Indicator) → IsFresh fl im catalog n → HasLocalIndicators n → 1 ≤ look_back n
  unfolding look_back
  look_back_pos (number_node x) fresh loc = omega arith
  look_back_pos (bar_field_node name) fresh loc = omega arith
  look_back_pos (scalar_unary f child) fresh loc = look_back_pos child fresh loc
  look_back_pos (scalar_binary f left right) fresh loc =
      omega (arith, look_back_pos left fresh.0 loc.0)
  look_back_pos (rolling_node m child window vs k) fresh loc =
      omega (arith, look_back_pos child fresh.0 loc)
  look_back_pos (lag_node child bars vs) fresh loc = omega (arith, look_back_pos child fresh.0 loc)
  look_back_pos (catalog_node indicator name bars window) fresh loc = loc.0

  -- Two histories that agree on the last `look_back` bars give a fresh node the same value, if its
  -- catalog indicators read no bar before their look-back.
  pub value-look_back :
      (n : Node Float Indicator) (recent older older' : History Float)
      → IsFresh fl im catalog n
      → HasLocalIndicators n
      → look_back n ≤ length recent
      → value fl im catalog n (recent ++ older) ≡ value fl im catalog n (recent ++ older')
  unfolding value look_back
  value-look_back (number_node x) recent o o' fresh loc p = refl
  value-look_back (bar_field_node name) [] o o' fresh loc p = absurd (omega arith)
  value-look_back (bar_field_node name) (b ∷ recent) o o' fresh loc p = refl
  value-look_back (scalar_unary f child) recent o o' fresh loc p =
      rw (value-look_back child recent o o' fresh loc p)
  value-look_back (scalar_binary f left right) recent o o' fresh loc p = rw (
    value-look_back left recent o o' fresh.0 loc.0 (omega arith),
    value-look_back right recent o o' fresh.1 loc.1 (omega arith),
  )
  value-look_back (rolling_node m child window vs k) recent o o' fresh loc p =
      ap (λ (vs : List (Option Float)). full_window_value fl im (function_of m) window (knowns vs))
        (trail-recent (value fl im catalog child) (look_back child) o o' window recent
          (look_back_pos child fresh.0 loc) (λ r q. value-look_back child r o o' fresh.0 loc q)
          (omega (arith, look_back_pos child fresh.0 loc)))
  value-look_back (lag_node child bars vs) recent o o' fresh loc p =
      let bound = look_back_pos child fresh.0 loc in
      rw
        (
          lt-length-append bars recent o (omega (arith, bound)),
          lt-length-append bars recent o' (omega (arith, bound)),
          drop-append bars recent o (omega (arith, bound)),
          drop-append bars recent o' (omega (arith, bound)),
        )
        (value-look_back child (drop bars recent) o o' fresh.0 loc
          (omega (arith, length-drop bars recent)))
  value-look_back (catalog_node indicator name bars window) recent o o' fresh loc p =
      loc.1 recent o o' p
