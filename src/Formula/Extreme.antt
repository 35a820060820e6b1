-- ===== src/Formula/Extreme.antt =====
-- The deque of `WindowExtreme` holds the values of the window that no later value beats.
use atrade.Prelude.{
  ◌≡◌, refl, Bool, true, false, any, List, [], ◌∷◌, ◌++◌, some, if◌then◌else◌, Bool-cases, inl, inr,
  arith,
}
use atrade.Formula.Floats.{Floats, FloatOrder}
use atrade.Formula.Measure.{
  Extreme, maximum, minimum, IntegerMath, is_beaten_by, pop_last, pop_beaten, remove_kept,
  window_extreme, first_kept,
}
use atrade.Formula.Meaning.{beaten_by_one, unbeaten, is_better, extreme_of}

module _ (fl : Floats) (im : IntegerMath) (order : FloatOrder fl) where
  open fl use {Float, eq}

  is_beaten_by_trans :
      (e : Extreme) (x y z : Float)
      → is_beaten_by fl im e x y ≡ true
      → is_beaten_by fl im e y z ≡ true
      → is_beaten_by fl im e x z ≡ true
  unfolding is_beaten_by
  is_beaten_by_trans maximum x y z p q = order.lt_trans x y z p q
  is_beaten_by_trans minimum x y z p q = order.lt_trans z y x q p

  is_beaten_by_ntrans :
      (e : Extreme) (x y z : Float)
      → is_beaten_by fl im e x y ≡ false
      → is_beaten_by fl im e y z ≡ false
      → is_beaten_by fl im e x z ≡ false
  unfolding is_beaten_by
  is_beaten_by_ntrans maximum x y z p q = order.lt_ntrans x y z p q
  is_beaten_by_ntrans minimum x y z p q = order.lt_ntrans z y x q p

  eq_of_beaten : (e : Extreme) (x y : Float) → is_beaten_by fl im e x y ≡ true → eq y x ≡ false
  unfolding is_beaten_by
  eq_of_beaten maximum x y p = order.eq_not_gt y x p
  eq_of_beaten minimum x y p = order.eq_not_lt y x p

  module _ (e : Extreme) where
    -- This extreme's `is_beaten_by`, over one value and over some.
    abbrev beats : Float → Float → Bool
    beats x y = is_beaten_by fl im e x y

    abbrev beaten : Float → List Float → Bool
    beaten x ys = beaten_by_one fl im e x ys

    beats_both : (x y z : Float) → beats x z ≡ true → beats x y ≡ false → beats y z ≡ true
    beats_both x y z p q = elim (Bool-cases (beats y z)) [
      | inl r ↦ r
      | inr r ↦ cc (is_beaten_by_ntrans e x y z q r)
    ]

    not_beaten_trans :
        (x y : Float) (zs : List Float)
        → beats x y ≡ false
        → beaten y zs ≡ false
        → beaten x zs ≡ false
    not_beaten_trans x y [] p q = refl
    not_beaten_trans x y (z ∷ zs) p q =
        ground (arith, is_beaten_by_ntrans e x y z p, not_beaten_trans x y zs p)

    -- A value that beats one which nothing later beat takes the whole deque out.
    pop_beaten-unbeaten :
        (x v : Float) (ys : List Float)
        → beaten x ys ≡ false
        → beats x v ≡ true
        → pop_beaten fl im e v (unbeaten fl im e ys) ≡ []
    unfolding pop_beaten unbeaten
    pop_beaten-unbeaten x v [] p q = refl
    pop_beaten-unbeaten x v (y ∷ ys) p q =
        ground (arith, pop_beaten-unbeaten x v ys, beats_both x y v q)

    beaten-append :
        (x v : Float) (ys : List Float)
        → beaten x (ys ++ v ∷ []) ≡ (if beaten x ys then true else beats x v)
    beaten-append x v [] = ground arith
    beaten-append x v (y ∷ ys) = ground (arith, beaten-append x v ys)

    pop_last-append :
        (x v : Float) (kept : List Float) → beats x v ≡ false → pop_last fl im e v x kept ≡ x ∷ kept
    unfolding pop_last
    pop_last-append x v [] p = rw p
    pop_last-append x v (y ∷ kept) p = refl

    -- `add`
    pub unbeaten-append :
        (v : Float) (xs : List Float)
        → unbeaten fl im e (xs ++ v ∷ []) ≡ pop_beaten fl im e v (unbeaten fl im e xs) ++ v ∷ []
    unfolding unbeaten pop_beaten
    unbeaten-append v [] = refl
    unbeaten-append v (x ∷ xs) = elim (Bool-cases (beaten x xs)) [
      | inl old ↦ rw (beaten-append x v xs, old) (unbeaten-append v xs)
      | inr top ↦ elim (Bool-cases (beats x v)) [
        | inl now ↦
            ground (
              arith,
              beaten-append x v xs,
              unbeaten-append v xs,
              pop_beaten-unbeaten x v xs top now,
            )
        | inr not_now ↦ ground (
          arith,
          beaten-append x v xs,
          unbeaten-append v xs,
          pop_last-append x v (pop_beaten fl im e v (unbeaten fl im e xs)) not_now,
        )
      ]
    ]

    -- A value that a later one beats is beaten by the head of the deque.
    head_beats :
        (x : Float) (ys : List Float)
        → beaten x ys ≡ true
        → (m : Float) × (kept : List Float) × (unbeaten fl im e ys ≡ m ∷ kept) × (beats x m ≡ true)
    unfolding unbeaten
    head_beats x [] p = cc
    head_beats x (y ∷ ys) p = elim (Bool-cases (beaten y ys)) [
      | inl later ↦ elim (Bool-cases (beats x y)) [
        | inl q ↦
            let (m, kept, here, r) = head_beats y ys later in
            (m, kept, rw later here, is_beaten_by_trans e x y m q r)
        | inr q ↦
            let (m, kept, here, r) = head_beats x ys (ground arith) in (m, kept, rw later here, r)
      ]
      | inr top ↦ elim (Bool-cases (beats x y)) [
        | inl q ↦ (y, unbeaten fl im e ys, rw top, q)
        | inr q ↦ absurd (ground (arith, not_beaten_trans x y ys q top))
      ]
    ]

    -- `remove` of the oldest value
    pub remove_kept-unbeaten :
        (x : Float) (xs : List Float)
        → remove_kept fl im e (unbeaten fl im e (x ∷ xs)) x
          ≡ some (window_extreme e (unbeaten fl im e xs))
    unfolding unbeaten remove_kept
    remove_kept-unbeaten x xs = elim (Bool-cases (beaten x xs)) [
      | inl later ↦
          let (m, kept, here, r) = head_beats x xs later in rw (later, here, eq_of_beaten e x m r)
      | inr top ↦ rw (top, order.eq_refl x)
    ]

    is_beaten_by-is_better : (x y : Float) → is_beaten_by fl im e x y ≡ is_better fl im e x y
    unfolding is_beaten_by
    is_beaten_by-is_better x y = elim e [ maximum ↦ refl | minimum ↦ refl ]

    any-is_better : (x : Float) (ys : List Float) → any (is_better fl im e x) ys ≡ beaten x ys
    any-is_better x [] = refl
    any-is_better x (y ∷ ys) = elim (Bool-cases (is_better fl im e x y)) [
      | inl better ↦ rw (is_beaten_by-is_better x y, better) refl
      | inr worse ↦ rw (is_beaten_by-is_better x y, worse) (any-is_better x ys)
    ]

    -- `read`
    pub first_kept-unbeaten :
        (x : Float) (xs : List Float)
        → first_kept fl im (unbeaten fl im e (x ∷ xs)) ≡ some (extreme_of fl im e (x ∷ xs))
    unfolding unbeaten first_kept extreme_of
    first_kept-unbeaten x [] = refl
    first_kept-unbeaten x (y ∷ xs) =
        ground (arith, any-is_better x (y ∷ xs), first_kept-unbeaten y xs)
