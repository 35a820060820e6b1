-- ===== src/Formula/Trail.antt =====
-- The windows of a history: how a bounded deque that gets each new value follows them.
use atrade.Prelude.{
  ℕ, zero, suc, ◌≤◌, ◌<◌, ◌≡◌, refl, ◌⊎◌, inl, inr, List, [], ◌∷◌, ◌++◌, min, length, length-append,
  ap, arith, ltb, if◌then◌else◌, Option, none,
}
use atrade.Formula.Node.{append_bounded, oldest_value}
use atrade.Formula.Meaning.{trail, drop}

module _ {B X : Type 0} (g : List B → X) where
  pub length-trail : (n : ℕ) (h : List B) → length (trail g n h) ≡ min n (length h)
  unfolding trail
  length-trail zero h = omega arith
  length-trail (suc n) [] = omega arith
  length-trail (suc n) (b ∷ h) =
      omega (arith, length-append (trail g n h) (g (b ∷ h) ∷ []), length-trail n h)

  pub trail-cons :
      (n : ℕ) (b : B) (h : List B) → trail g (suc n) (b ∷ h) ≡ trail g n h ++ g (b ∷ h) ∷ []
  unfolding trail
  trail-cons n b h = refl

  -- One bar more is the value before the others, or nothing where the history is too short.
  pub trail-suc :
      (n : ℕ) (h : List B)
      → ((length h ≤ n) × (trail g (suc n) h ≡ trail g n h))
        ⊎ ((n < length h) × (trail g (suc n) h ≡ g (drop n h) ∷ trail g n h))
  unfolding trail drop
  trail-suc zero [] = inl (omega arith, refl)
  trail-suc zero (b ∷ h) = inr (omega arith, refl)
  trail-suc (suc n) [] = inl (omega arith, refl)
  trail-suc (suc n) (b ∷ h) = elim (trail-suc n h) [
    | inl (short, same) ↦ inl (omega arith, ap (λ (xs : List X). xs ++ g (b ∷ h) ∷ []) same)
    | inr (long, more) ↦ inr (omega arith, ap (λ (xs : List X). xs ++ g (b ∷ h) ∷ []) more)
  ]

  -- A deque of the last values gets the value at the new bar.
  pub append_bounded-trail :
      (n : ℕ) (b : B) (h : List B)
      → append_bounded (suc n) (trail g (suc n) h) (g (b ∷ h)) ≡ trail g (suc n) (b ∷ h)
  unfolding append_bounded trail
  append_bounded-trail n b h = elim (trail-suc n h) [
    | inl (short, same) ↦
        rw same (ground (arith, length-trail n h, length-append (trail g n h) (g (b ∷ h) ∷ [])))
    | inr (long, more) ↦
        rw more (ground (arith, length-trail n h, length-append (trail g n h) (g (b ∷ h) ∷ [])))
  ]

module _ {B Y : Type 0} (g : List B → Option Y) where
  oldest_value-short : (n : ℕ) (xs : List (Option Y)) → length xs ≤ n → oldest_value n xs ≡ none
  unfolding oldest_value
  oldest_value-short n [] p = refl
  oldest_value-short n (x ∷ xs) p = ground arith

  -- The oldest value of a full deque is the value `n` bars ago.
  pub oldest_value-trail :
      (n : ℕ) (h : List B)
      → oldest_value n (trail g (suc n) h) ≡ (if ltb n (length h) then g (drop n h) else none)
  unfolding oldest_value
  oldest_value-trail n h = elim (trail-suc g n h) [
    | inl (short, same) ↦
        rw same
          (ground (arith, oldest_value-short n (trail g n h) (omega (arith, length-trail g n h))))
    | inr (long, more) ↦ rw more (ground (arith, length-trail g n h))
  ]
