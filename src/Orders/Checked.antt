-- ===== src/Orders/Checked.antt =====
-- When the paper account check gives an account, and which orders `cancel_order` cancels.
use Prim.Native.String.{String}
use package.text.Mathlib.Text.{◌==◌ as str_eq, starts_with}
use text.Mathlib.TextEquality.{eq_iff}
use text.Mathlib.TextPositions.{eq_refl}
use atrade.Prelude.{
  ℕ, ◌==◌, ◌≡◌, ◌↔◌, true, List, [], ◌∷◌, none, some, arith, Bool-cases, Option-cases, inl, inr,
  sym, ap, ◌∙◌,
}
use atrade.Orders.{
  Settings, Gateway, paper_account_prefix, require_paper_account, check_result, checked_account,
  find_account_failure,
}

-- The conditions of the paper account check, for an account.
pub record IsPaperAccount (settings : Settings) (gateway : Gateway) (account : String)
    : Type 0 where
  pub connected : gateway.is_connected ≡ true
  pub mode : settings.trading_mode ≡ "paper"
  pub port : gateway.read_port ≡ settings.ibkr_paper_port
  pub expected : settings.ibkr_account_id ≡ some account
  pub only_account : gateway.read_managed_accounts ≡ account ∷ []
  pub paper : starts_with account paper_account_prefix ≡ true

require_paper_account-IsPaperAccount :
    (settings : Settings) (gateway : Gateway) (account : String)
    → IsPaperAccount settings gateway account
    → require_paper_account settings gateway ≡ some account
unfolding require_paper_account
require_paper_account-IsPaperAccount settings gateway account h =
    rw (h.connected, h.mode, h.port, h.expected, h.only_account, eq_refl account, h.paper)
      (ground arith)

no_account : {a : String} → none ≡ some a → ⊥
no_account h = ground arith

port_eq : (a b : ℕ) → (a == b) ≡ true → a ≡ b
port_eq a b h = ground arith

some-eq : {a b : String} → some a ≡ some b → a ≡ b
some-eq h = ground arith

-- The account of the list that the conditions on the accounts accept.
accepted_account :
    (expected account : String) (accounts : List String)
    → checked_account (check_result (find_account_failure expected accounts) accounts)
      ≡ some account
    → (expected ≡ account)
      × (accounts ≡ account ∷ [])
      × (starts_with account paper_account_prefix ≡ true)
accepted_account expected account [] h = absurd (no_account h)
accepted_account expected account (a ∷ b ∷ more) h = absurd (no_account h)
accepted_account expected account (actual ∷ []) h = elim (Bool-cases (str_eq actual expected)) [
  | inr other ↦ absurd (no_account (rw other at h))
  | inl same ↦ elim (Bool-cases (starts_with actual paper_account_prefix)) [
    | inr live ↦ absurd (no_account (rw (same, live) at h))
    | inl paper ↦
        let here : actual ≡ account = some-eq (rw (same, paper) at h) in
        (
          sym ((eq_iff actual expected).0 same) ∙ here,
          ap (λ (a : String). a ∷ []) here,
          rw (← here) paper,
        )
  ]
]

IsPaperAccount-require_paper_account :
    (settings : Settings) (gateway : Gateway) (account : String)
    → require_paper_account settings gateway ≡ some account
    → IsPaperAccount settings gateway account
unfolding require_paper_account
IsPaperAccount-require_paper_account settings gateway account h =
    elim (Bool-cases gateway.is_connected) [
      | inr apart ↦ absurd (no_account (rw apart at h))
      | inl connected ↦ elim (Bool-cases (str_eq settings.trading_mode "paper")) [
        | inr live ↦ absurd (no_account (rw (connected, live) at h))
        | inl paper ↦ elim (Bool-cases (gateway.read_port == settings.ibkr_paper_port)) [
          | inr port ↦ absurd (no_account (rw (connected, paper, port) at h))
          | inl port ↦ elim (Option-cases settings.ibkr_account_id) [
            | inl unset ↦ absurd (no_account (rw (connected, paper, port, unset) at h))
            | inr (expected, set) ↦
                let (same, only, prefix) =
                  accepted_account expected account gateway.read_managed_accounts
                    (rw (connected, paper, port, set) at h) in
                record {
                  connected = connected;
                  mode = (eq_iff settings.trading_mode "paper").0 paper;
                  port = port_eq gateway.read_port settings.ibkr_paper_port port;
                  expected = rw set (ap some same);
                  only_account = only;
                  paper = prefix;
                }
          ]
        ]
      ]
    ]

-- An account passes the paper account check exactly when IB Gateway is connected on the paper port in
-- paper mode, and it is the only account, the expected one and one with the prefix of paper accounts.
pub require_paper_account_lem :
    (settings : Settings) (gateway : Gateway) (account : String)
    → (require_paper_account settings gateway ≡ some account)
      ↔ IsPaperAccount settings gateway account
require_paper_account_lem settings gateway account = (
  IsPaperAccount-require_paper_account settings gateway account,
  require_paper_account-IsPaperAccount settings gateway account,
)
