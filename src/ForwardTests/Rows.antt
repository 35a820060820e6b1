-- ===== src/ForwardTests/Rows.antt =====
-- The rows of forward tests that the Web process and the worker change: what a statement keeps.
use atrade.Prelude.Tables.{update_rows}
use atrade.Prelude.{
  ℕ, ◌<◌, ◌==◌, ◌≡◌, ◌⊎◌, inl, inr, refl, Bool, true, false, not, ◌&&◌, ◌||◌, any, List, [], ◌∷◌,
  ◌++◌, Option, none, some, arith, Bool-cases, any-append, and_both, or_false,
}
use atrade.ForwardTests.{ForwardTestStatus, ForwardTestRow, is_active}
use atrade.ForwardTests.Store.{is_held, update_row}
use atrade.ForwardTests.Insert.{has_client, is_taken}
use atrade.ForwardTests.Worker.{is_stop, crash_limit}
use atrade.ForwardTests.Child.{RunningChild, is_run}

-- A row with this status holds a client ID.
abbrev pub needs_client : ForwardTestStatus → Bool
needs_client ForwardTestStatus.starting = true
needs_client ForwardTestStatus.running = true
needs_client ForwardTestStatus.waiting_for_gateway = true
needs_client ForwardTestStatus.stopping = true
needs_client ForwardTestStatus.stopped = false
needs_client ForwardTestStatus.stop_failed = true
needs_client ForwardTestStatus.failed = false

-- A forward test that is not at its end holds a client ID, and one that the worker starts again has
-- fewer crashes than the limit.
pub record IsRowOk (row : ForwardTestRow) : Type 0 where
  pub held : needs_client row.status ≡ true → is_held row.client_id ≡ true
  pub few_crashes : is_active row.status ≡ true → row.crash_count < crash_limit

abbrev pub IsFree : Option ℕ → List ForwardTestRow → Type 0
IsFree none rows = Unit
IsFree (some client_id) rows = is_taken client_id rows ≡ false

-- No 2 rows hold the same client ID.
abbrev pub HasOwnClients : List ForwardTestRow → Type 0
HasOwnClients [] = Unit
HasOwnClients (row ∷ rows) = IsFree row.client_id rows × HasOwnClients rows

-- The row of a child: it holds a client ID, it is active or the child stops, and only a child of the
-- mode "run" is asked to restart.
abbrev pub supports : ℕ → RunningChild → ForwardTestRow → Bool
supports id child row =
    row.id == id
    && (is_held row.client_id
        && ((is_stop child || is_active row.status)
            && (not child.is_restart_requested || is_run child.mode)))

pub supports-id :
    (id : ℕ) (child : RunningChild) (row : ForwardTestRow)
    → supports id child row ≡ true
    → (row.id == id) ≡ true
supports-id id child row h = (and_both (row.id == id) _ h).0

pub any-append-left :
    (p : ForwardTestRow → Bool) (rows : List ForwardTestRow) (row : ForwardTestRow)
    → any p rows ≡ true
    → any p (rows ++ row ∷ []) ≡ true
any-append-left p rows row h = rw (any-append p rows (row ∷ []), h) refl

IsFree-append :
    (own : Option ℕ) (rows : List ForwardTestRow) (row : ForwardTestRow) (client_id : ℕ)
    → IsFree own rows
    → row.client_id ≡ some client_id
    → has_client client_id own ≡ false
    → IsFree own (rows ++ row ∷ [])
IsFree-append none rows row client_id h e other = tt
IsFree-append (some own) rows row client_id h e other =
    let different : (client_id == own) ≡ false = ground arith in
    rw
      (
        any-append (λ (x : ForwardTestRow). has_client own x.client_id) rows (row ∷ []),
        h,
        e,
        different,
      )
      refl

pub HasOwnClients-append :
    (rows : List ForwardTestRow) (row : ForwardTestRow) (client_id : ℕ)
    → HasOwnClients rows
    → row.client_id ≡ some client_id
    → is_taken client_id rows ≡ false
    → HasOwnClients (rows ++ row ∷ [])
HasOwnClients-append [] row client_id h e free = rw e (refl, tt)
HasOwnClients-append (r ∷ rows) row client_id h e free =
    let (other, later) = or_false (has_client client_id r.client_id) _ free in
    (
      IsFree-append r.client_id rows row client_id h.0 e other,
      HasOwnClients-append rows row client_id h.1 e later,
    )

module _ (id : ℕ) (set_row : ForwardTestRow → ForwardTestRow) where
  module _
      (keep : (row : ForwardTestRow)
        → ((set_row row).client_id ≡ row.client_id) ⊎ ((set_row row).client_id ≡ none)) where
    pub is_taken-update_row :
        (client_id : ℕ) (rows : List ForwardTestRow)
        → is_taken client_id rows ≡ false
        → is_taken client_id (update_row id set_row rows) ≡ false
    unfolding update_rows
    is_taken-update_row client_id [] h = h
    is_taken-update_row client_id (row ∷ rows) h =
        let (free, later) = or_false (has_client client_id row.client_id) _ h in
        let rest = is_taken-update_row client_id rows later in
        elim (Bool-cases (row.id == id)) [
          | inl hit ↦ elim (keep row) [
            | inl same ↦ rw (hit, same, free) rest
            | inr gone ↦ rw (hit, gone) rest
          ]
          | inr miss ↦ rw (miss, free) rest
        ]

    IsFree-update_row :
        (client_id : Option ℕ) (rows : List ForwardTestRow)
        → IsFree client_id rows
        → IsFree client_id (update_row id set_row rows)
    IsFree-update_row none rows h = h
    IsFree-update_row (some client_id) rows h = is_taken-update_row client_id rows h

    pub HasOwnClients-update_row :
        (rows : List ForwardTestRow)
        → HasOwnClients rows
        → HasOwnClients (update_row id set_row rows)
    unfolding update_rows
    HasOwnClients-update_row [] h = h
    HasOwnClients-update_row (row ∷ rows) h =
        let rest = HasOwnClients-update_row rows h.1 in
        let free = IsFree-update_row row.client_id rows h.0 in
        elim (Bool-cases (row.id == id)) [
          | inl hit ↦ elim (keep row) [
            | inl same ↦ rw (hit, same) (free, rest)
            | inr gone ↦ rw (hit, gone) (tt, rest)
          ]
          | inr miss ↦ rw miss (free, rest)
        ]
