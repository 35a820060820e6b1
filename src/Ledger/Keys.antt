-- ===== src/Ledger/Keys.antt =====
-- Equal keys are equal, and what `put` does to a dict.
use package.text.Mathlib.Text.{◌==◌ as str_eq}
use text.Mathlib.TextEquality.{eq_iff}
use text.Mathlib.TextPositions.{eq_refl}
use atrade.Prelude.{
  ℕ, ◌+◌, ◌≤◌, ◌==◌, ◌≡◌, refl, Bool, true, false, ◌&&◌, [], ◌∷◌, Option, arith, if◌then◌else◌,
  Bool-cases, inl, inr, ap,
}
use atrade.Prelude.Int.{ℤ, pos, ◌+ℤ◌, ◌-ℤ◌, int_laws}
use atrade.Ledger.{
  Instrument, OwnerKind, Owner, same_kind, same_id, same_owner, same_instrument, Key, same_key,
  Amounts, get, put,
}

and_split : (a b : Bool) → (a && b) ≡ true → (a ≡ true) × (b ≡ true)
and_split true b h = (refl, h)
and_split false b h = absurd (ground arith)

same_kind-eq : (a b : OwnerKind) → same_kind a b ≡ true → a ≡ b
same_kind-eq a b h = ground arith

same_id-eq : (a b : Option ℕ) → same_id a b ≡ true → a ≡ b
same_id-eq a b h = ground arith

pub same_owner-eq : (a b : Owner) → same_owner a b ≡ true → a ≡ b
unfolding same_owner
same_owner-eq a b h =
    let (k, i) =
      and_split (same_kind a.kind b.kind) (same_id a.forward_test_id b.forward_test_id) h in
    λ n. record {
      kind = same_kind-eq a.kind b.kind k n;
      forward_test_id = same_id-eq a.forward_test_id b.forward_test_id i n;
    }

pub same_instrument-eq : (i j : Instrument) → same_instrument i j ≡ true → i ≡ j
unfolding same_instrument
same_instrument-eq i j h =
    let (p, r) =
      and_split (str_eq i.symbol j.symbol && str_eq i.exchange j.exchange)
        (str_eq i.currency j.currency) h in
    let (s, x) = and_split (str_eq i.symbol j.symbol) (str_eq i.exchange j.exchange) p in
    λ n. record {
      symbol = (eq_iff i.symbol j.symbol).0 s n;
      exchange = (eq_iff i.exchange j.exchange).0 x n;
      currency = (eq_iff i.currency j.currency).0 r n;
    }

pub same_key-eq : (k j : Key) → same_key k j ≡ true → k ≡ j
unfolding same_key
same_key-eq (a, i) (b, j) h =
    let (p, q) = and_split (same_owner a b) (same_instrument i j) h in
    λ n. (same_owner-eq a b p n, same_instrument-eq i j q n)

pub same_owner_refl : (a : Owner) → same_owner a a ≡ true
unfolding same_owner
same_owner_refl a = ground arith

pub same_owner-sym : (a b : Owner) → same_owner a b ≡ same_owner b a
unfolding same_owner
same_owner-sym a b = ground arith

pub same_instrument_refl : (i : Instrument) → same_instrument i i ≡ true
unfolding same_instrument
same_instrument_refl i = rw (eq_refl i.symbol, eq_refl i.exchange, eq_refl i.currency)

pub same_key_refl : (k : Key) → same_key k k ≡ true
unfolding same_key
same_key_refl (a, i) = rw (same_owner_refl a, same_instrument_refl i)

-- The sum of the values that a dict has at a key, and their number.
abbrev pub total_at : Key → Amounts → ℤ
total_at k [] = pos 0
total_at k ((j, v) ∷ d) = (if same_key k j then v else pos 0) +ℤ total_at k d

abbrev pub count_key : Key → Amounts → ℕ
count_key k [] = 0
count_key k ((j, v) ∷ d) = (if same_key k j then 1 else 0) + count_key k d

-- A dict has each key at most once, and reads the sum at a key.
abbrev pub IsDict : Amounts → Type 0
IsDict d = (k : Key) → (count_key k d ≤ 1) × (total_at k d ≡ get k d)

pub same_key_trans : (k i j : Key) → same_key i j ≡ true → same_key k i ≡ same_key k j
same_key_trans k i j h = ap (same_key k) (same_key-eq i j h)

pub get-put :
    (k j : Key) (v : ℤ) (d : Amounts) → get k (put j v d) ≡ (if same_key k j then v else get k d)
unfolding get put
get-put k j v [] = refl
get-put k j v ((i, w) ∷ d) = elim (Bool-cases (same_key j i)) [
  | inl same ↦ rw (same, same_key_trans k j i same) (ground arith)
  | inr other ↦
      rw (other, get-put k j v d)
        (elim (Bool-cases (same_key k i)) [
          | inl here ↦ elim (Bool-cases (same_key k j)) [
            | inl both ↦ absurd (cc (same_key-eq k j both))
            | inr apart ↦ rw (here, apart) refl
          ]
          | inr there ↦ rw there refl
        ])
]

total_at-put :
    (k j : Key) (v : ℤ) (d : Amounts)
    → total_at k (put j v d) ≡ total_at k d +ℤ (if same_key k j then v -ℤ get j d else pos 0)
unfolding get put
total_at-put k j v [] = elim (Bool-cases (same_key k j)) [
  | inl same ↦ rw same (omega int_laws)
  | inr other ↦ rw other (omega int_laws)
]
total_at-put k j v ((i, w) ∷ d) = elim (Bool-cases (same_key j i)) [
  | inl same ↦
      rw (same, same_key_trans k j i same)
        (elim (Bool-cases (same_key k i)) [
          | inl here ↦ rw here (omega int_laws)
          | inr there ↦ rw there (omega int_laws)
        ])
  | inr other ↦ rw (other, total_at-put k j v d) (omega int_laws)
]

count_key-put :
    (k j : Key) (v : ℤ) (d : Amounts)
    → count_key k (put j v d)
      ≡ count_key k d + (if same_key k j && (count_key j d == 0) then 1 else 0)
unfolding put
count_key-put k j v [] = ground arith
count_key-put k j v ((i, w) ∷ d) = elim (Bool-cases (same_key j i)) [
  | inl same ↦ rw (same, same_key_trans k j i same) (ground arith)
  | inr other ↦ rw (other, count_key-put k j v d) (ground arith)
]

pub nil-IsDict : IsDict []
unfolding get
nil-IsDict k = (omega arith, refl)

pub put-IsDict : (j : Key) (v : ℤ) (d : Amounts) → IsDict d → IsDict (put j v d)
put-IsDict j v d h k = elim (Bool-cases (same_key k j)) [
  | inl same ↦
      rw (count_key-put k j v d, total_at-put k j v d, get-put k j v d, same, same_key-eq k j same)
        (ground (arith, (h j).0), rw (h j).1 (omega int_laws))
  | inr other ↦
      rw (count_key-put k j v d, total_at-put k j v d, get-put k j v d, other)
        (ground (arith, (h k).0), rw (h k).1 (omega int_laws))
]

pub same_instrument-sym : (i j : Instrument) → same_instrument i j ≡ same_instrument j i
same_instrument-sym i j = elim (Bool-cases (same_instrument i j)) [
  | inl same ↦ rw (same_instrument-eq i j same) refl
  | inr other ↦ elim (Bool-cases (same_instrument j i)) [
    | inl same ↦ rw (same_instrument-eq j i same) refl
    | inr apart ↦ rw (other, apart) refl
  ]
]
