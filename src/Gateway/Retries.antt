-- ===== src/Gateway/Retries.antt =====
-- Which calls of `require_connection` go through while the link to IBKR is lost.
use atrade.Prelude.{
  ℕ, ◌+◌, ◌*◌, ◌≤◌, ◌<◌, ◌≡◌, refl, true, List, [], ◌∷◌, Option, none, some, arith,
}
use atrade.Bar.{microseconds}
use atrade.Gateway.{Connection, require_ibkr_link, require_connection}

-- The times of the calls of `require_connection` that go through, of calls at the given times. A call is
-- not always a request: the reads of exchange rates check the link twice, `search_instruments` never.
abbrev pub passed : Connection → List ℕ → List ℕ
passed c [] = []
passed c (t ∷ ts) = elim (require_connection t c) [ none ↦ passed c ts | some d ↦ t ∷ passed d ts ]

-- Which of the calls at `times` go through when the first can at `from`: one that is before that time
-- does not, one at that time or later does, and the next can 60 seconds after it.
pub data LetsThrough : (from : ℕ) (times through : List ℕ) → Type 0 where
  no_calls : (from : ℕ) → LetsThrough from [] []
  refused :
      (from t : ℕ) (ts through : List ℕ)
      → t < from
      → LetsThrough from ts through
      → LetsThrough from (t ∷ ts) through
  goes_through :
      (from t : ℕ) (ts through : List ℕ)
      → from ≤ t
      → LetsThrough (t + 60 * microseconds) ts through
      → LetsThrough from (t ∷ ts) (t ∷ through)

refused_call :
    (c : Connection) (t : ℕ)
    → c.is_connected ≡ true
    → c.ibkr_link_lost ≡ true
    → require_connection t c ≡ none
    → t < c.ibkr_link_retry_at
unfolding require_connection require_ibkr_link
refused_call c t on lost h = ground (arith, on, lost, h)

passed_call :
    (c : Connection) (t : ℕ) (d : Connection)
    → c.is_connected ≡ true
    → c.ibkr_link_lost ≡ true
    → require_connection t c ≡ some d
    → (c.ibkr_link_retry_at ≤ t)
      × (d.is_connected ≡ true)
      × (d.ibkr_link_lost ≡ true)
      × (d.ibkr_link_retry_at ≡ t + 60 * microseconds)
unfolding require_connection require_ibkr_link
passed_call c t d on lost h = ground (arith, on, lost, h)

-- While IB Gateway is connected and its link to IBKR is lost, a call of `require_connection` goes through
-- from the retry time on, and then the next one from 60 seconds after it on; all other calls are refused:
-- of any calls with no message of IB Gateway, no link check and no new connection between them.
pub passed-LetsThrough :
    (c : Connection) (times : List ℕ)
    → c.is_connected ≡ true
    → c.ibkr_link_lost ≡ true
    → LetsThrough c.ibkr_link_retry_at times (passed c times)
passed-LetsThrough c [] on lost = no_calls c.ibkr_link_retry_at
passed-LetsThrough c (t ∷ times) on lost =
    go (require_connection t c) refl (passed-LetsThrough c times on lost)
      (λ d still_on still. passed-LetsThrough d times still_on still)
  where
    go :
        (o : Option Connection)
        → require_connection t c ≡ o
        → LetsThrough c.ibkr_link_retry_at times (passed c times)
        → ((d : Connection)
            → d.is_connected ≡ true
            → d.ibkr_link_lost ≡ true
            → LetsThrough d.ibkr_link_retry_at times (passed d times))
        → LetsThrough c.ibkr_link_retry_at
            (t ∷ times)
            (elim o [ none ↦ passed c times | some d ↦ t ∷ passed d times ])
    go none e rest after =
        refused c.ibkr_link_retry_at t times (passed c times) (refused_call c t on lost e) rest
    go (some d) e rest after =
        let (due, still_on, still, later) = passed_call c t d on lost e in
        goes_through c.ibkr_link_retry_at t times (passed d times) due
          (rw (← later) (after d still_on still))
