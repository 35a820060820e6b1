-- ===== src/Orders/Canceled.antt =====
-- Which orders `cancel_order` cancels.
use Prim.Native.String.{String}
use package.text.Mathlib.Text.{◌==◌ as str_eq}
use text.Mathlib.TextEquality.{eq_iff}
use mathlib.Core.List.{Memᴰ}
use atrade.Prelude.{
  ℕ, ◌==◌, ◌≡◌, refl, Bool, true, false, ◌&&◌, ◌||◌, List, [], ◌∷◌, some, arith, Bool-cases,
  Option-cases, inl, inr, ◌⊎◌,
}
use atrade.Ledger.Rules.{OpenOrder}
use atrade.Orders.{
  Settings, Gateway, require_paper_account, OrderSource, from_by_hand, from_forward_test, OrderRefs,
  read_order_source, is_by_hand, is_cancellable_by_hand, ManualOrder, has_manual_order, canceled,
  refused_by_check, gateway_error, keep_matching, raise_not_cancellable, has_cancellable,
  cancel_open_order, cancel_order,
}

-- An order of an account that was sent by hand with the client ID of the Web process.
pub record IsOwnOrder (refs : OrderRefs) (account : String) (order_id client_id : ℕ) (o : OpenOrder)
    : Type 0 where
  pub id : o.order_id ≡ order_id
  pub own_account : o.account ≡ account
  pub by_hand : read_order_source refs o.order_ref ≡ from_by_hand
  pub client : o.client_id ≡ client_id

or_cases : (a b : Bool) → (a || b) ≡ true → (a ≡ true) ⊎ (b ≡ true)
or_cases true b h = inl refl
or_cases false b h = inr h

and_cases : (a b : Bool) → (a && b) ≡ true → (a ≡ true) × (b ≡ true)
and_cases true b h = (refl, h)
and_cases false b h = absurd (ground arith)

by_hand_source : (s : OrderSource) → is_by_hand s ≡ true → s ≡ from_by_hand
by_hand_source from_by_hand h = refl
by_hand_source (from_forward_test id) h = absurd (ground arith)

numbers_equal : (a b : ℕ) → (a == b) ≡ true → a ≡ b
numbers_equal a b h = ground arith

not_refused : refused_by_check ≡ canceled → ⊥
not_refused h = ground arith

not_failed : gateway_error ≡ canceled → ⊥
not_failed h = ground arith

module _ (refs : OrderRefs) (account : String) (order_id client_id : ℕ) where
  own_order :
      (orders : List OpenOrder)
      → has_cancellable refs client_id (keep_matching account order_id orders) ≡ true
      → (o : OpenOrder) × Memᴰ o orders × IsOwnOrder refs account order_id client_id o
  unfolding keep_matching is_cancellable_by_hand
  own_order [] h = absurd (ground arith)
  own_order (o ∷ orders) h =
      elim (Bool-cases (o.order_id == order_id && str_eq o.account account)) [
        | inr other ↦
            let (p, mem, own) = own_order orders (rw other at h) in (p, Memᴰ.tail mem, own)
        | inl matching ↦
            elim (or_cases (is_cancellable_by_hand refs o client_id) _ (rw matching at h)) [
              | inr later ↦ let (p, mem, own) = own_order orders later in (p, Memᴰ.tail mem, own)
              | inl here ↦
                  let (id, own) =
                    and_cases (o.order_id == order_id) (str_eq o.account account) matching in
                  let (by_hand, client) =
                    and_cases (is_by_hand (read_order_source refs o.order_ref))
                      (o.client_id == client_id) here in
                  (
                    o,
                    Memᴰ.head refl,
                    record {
                      id = numbers_equal o.order_id order_id id;
                      own_account = (eq_iff o.account account).0 own;
                      by_hand = by_hand_source (read_order_source refs o.order_ref) by_hand;
                      client = numbers_equal o.client_id client_id client;
                    },
                  )
            ]
      ]

-- What `cancel_order` knows of an order that it cancels.
pub record CanCancel (refs : OrderRefs) (settings : Settings) (gateway : Gateway)
    (manual_orders : List ManualOrder) (order_id : ℕ) : Type 0 where
  pub account : String
  pub orders : List OpenOrder
  pub order : OpenOrder
  pub checked : require_paper_account settings gateway ≡ some account
  pub read : gateway.read_open_orders ≡ some orders
  pub open_order : Memᴰ order orders
  pub own : IsOwnOrder refs account order_id settings.ibkr_web_client_id order
  pub known : has_manual_order manual_orders account order_id ≡ true
  pub accepted : gateway.accepts_cancel order_id ≡ true

module _ (refs : OrderRefs) (settings : Settings) (gateway : Gateway)
    (manual_orders : List ManualOrder) (order_id : ℕ) where
  not_cancellable : (orders : List OpenOrder) → raise_not_cancellable refs orders ≡ canceled → ⊥
  unfolding raise_not_cancellable
  not_cancellable [] h = ground arith
  not_cancellable (o ∷ orders) h = ground arith

  open_order_canceled :
      (account : String) (orders : List OpenOrder)
      → cancel_open_order refs settings gateway manual_orders account orders order_id ≡ canceled
      → (has_cancellable refs settings.ibkr_web_client_id (keep_matching account order_id orders)
          ≡ true)
        × (has_manual_order manual_orders account order_id ≡ true)
        × (gateway.accepts_cancel order_id ≡ true)
  unfolding cancel_open_order
  open_order_canceled account orders h =
      let matching = keep_matching account order_id orders in
      elim (Bool-cases (has_cancellable refs settings.ibkr_web_client_id matching)) [
        | inr foreign ↦ absurd (not_cancellable matching (rw foreign at h))
        | inl own ↦ elim (Bool-cases (has_manual_order manual_orders account order_id)) [
          | inr unknown ↦ absurd (ground arith)
          | inl known ↦ elim (Bool-cases (gateway.accepts_cancel order_id)) [
            | inr lost ↦ absurd (ground arith)
            | inl accepted ↦ (own, known, accepted)
          ]
        ]
      ]

  -- `cancel_order` cancels only an open order of the checked paper account, sent by hand with the client
  -- ID of the Web process, which ATrade stored as an order by hand.
  pub cancel_order-CanCancel :
      cancel_order refs settings gateway manual_orders order_id ≡ canceled
      → CanCancel refs settings gateway manual_orders order_id
  unfolding cancel_order
  cancel_order-CanCancel h = elim (Option-cases (require_paper_account settings gateway)) [
    | inl refused ↦ absurd (not_refused (rw (refused, cancel_order) at h))
    | inr (account, checked) ↦ elim (Option-cases gateway.read_open_orders) [
      | inl failed ↦ absurd (not_failed (rw (checked, failed, cancel_order) at h))
      | inr (orders, read) ↦
          let (own, known, accepted) =
            open_order_canceled account orders (rw (checked, read, cancel_order) at h) in
          let (o, mem, is_own) =
            own_order refs account order_id settings.ibkr_web_client_id orders own in
          record {
            account = account;
            orders = orders;
            order = o;
            checked = checked;
            read = read;
            open_order = mem;
            own = is_own;
            known = known;
            accepted = accepted;
          }
    ]
  ]
