-- ===== src/SplitChecks/OneState.antt =====
-- An instrument of an account is in the "Split check needed" state once.
use atrade.Prelude.Tables.{update_rows}
use Prim.Native.String.{String}
use package.text.Mathlib.Text.{◌==◌ as str_eq}
use text.Mathlib.TextEquality.{eq_iff}
use atrade.Prelude.{
  and_both, or_false, ℕ, ◌+◌, ◌≤◌, ◌≡◌, refl, Bool, true, false, ◌==◌, any, List, [], ◌∷◌, ◌++◌,
  Option, some, arith, Bool-cases, inl, inr,
}
use atrade.Ledger.{Instrument, same_instrument}
use atrade.Ledger.Keys.{same_instrument-eq}
use atrade.SplitChecks.{
  SplitCheck, NewSplitCheck, CheckTable, Resolution, is_in_state, new_check, insert_split_check,
  update_check, resolve_check, write_resolution, write_restarted,
}

abbrev one_if : Bool → ℕ
one_if true = 1
one_if false = 0

-- The split checks of an instrument of an account that are needed.
abbrev pub count_in_state : String → Instrument → List SplitCheck → ℕ
count_in_state account i [] = 0
count_in_state account i (c ∷ checks) =
    one_if (is_in_state account i c) + count_in_state account i checks

abbrev pub HasOneState : CheckTable → Type 0
HasOneState table = (account : String) (i : Instrument) → count_in_state account i table.checks ≤ 1

count-append :
    (account : String) (i : Instrument) (xs ys : List SplitCheck)
    → count_in_state account i (xs ++ ys)
      ≡ count_in_state account i xs + count_in_state account i ys
count-append account i [] ys = omega arith
count-append account i (x ∷ xs) ys = omega (arith, count-append account i xs ys)

count_none :
    (account : String) (i : Instrument) (checks : List SplitCheck)
    → any (is_in_state account i) checks ≡ false
    → count_in_state account i checks ≡ 0
count_none account i [] h = refl
count_none account i (c ∷ checks) h =
    let (other, rest) = or_false (is_in_state account i c) (any (is_in_state account i) checks) h in
    rw (other, count_none account i checks rest) refl

-- A new row is in the state of its own account and instrument only.
new_check-key :
    (account : String) (i : Instrument) (id : ℕ) (check : NewSplitCheck) (now : ℕ)
    → is_in_state account i (new_check id check now) ≡ true
    → (check.account ≡ account) × (check.instrument ≡ i)
unfolding is_in_state
new_check-key account i id check now h =
    let (a, b) = and_both (str_eq check.account account) (same_instrument check.instrument i) h in
    ((eq_iff check.account account).0 a, same_instrument-eq check.instrument i b)

insert_split_check-HasOneState :
    (check : NewSplitCheck) (now : ℕ) (table : CheckTable)
    → HasOneState table
    → HasOneState (insert_split_check check now table)
unfolding insert_split_check
insert_split_check-HasOneState check now table one account i =
    elim (Bool-cases (any (is_in_state check.account check.instrument) table.checks)) [
      | inl known ↦ rw known (one account i)
      | inr free ↦ rw free (
          rw (count-append account i table.checks (new_check table.next_id check now ∷ []))
            (added free))
    ]
  where
    added :
        any (is_in_state check.account check.instrument) table.checks ≡ false
        → count_in_state account i table.checks
            + (one_if (is_in_state account i (new_check table.next_id check now)) + 0)
          ≤ 1
    added free = elim (Bool-cases (is_in_state account i (new_check table.next_id check now))) [
      | inr other ↦ rw other (omega (arith, one account i))
      | inl same ↦
          let (e1, e2) = new_check-key account i table.next_id check now same in
          let none : count_in_state account i table.checks ≡ 0 =
            rw (← e1, ← e2) (count_none check.account check.instrument table.checks free) in
          rw (same, none) (omega arith)
    ]

-- A change of a row that is not needed after it, or as it was before, adds no row in the state.
update_check-count :
    (account : String) (i : Instrument) (id : ℕ) (set_check : SplitCheck → SplitCheck)
    → ((c : SplitCheck)
        → one_if (is_in_state account i (set_check c)) ≤ one_if (is_in_state account i c))
    → (checks : List SplitCheck)
    → count_in_state account i (update_check id set_check checks) ≤ count_in_state account i checks
unfolding update_rows
update_check-count account i id set_check less [] = omega arith
update_check-count account i id set_check less (c ∷ checks) =
    let rest = update_check-count account i id set_check less checks in
    elim (Bool-cases (c.id == id)) [
      | inl hit ↦ rw hit (omega (arith, rest, less c))
      | inr miss ↦ rw miss (omega (arith, rest))
    ]

write_resolution-HasOneState :
    (id : ℕ) (resolution : Resolution) (split : Option ℕ) (now : ℕ) (table : CheckTable)
    → HasOneState table
    → HasOneState (write_resolution id resolution split now table)
unfolding write_resolution is_in_state
write_resolution-HasOneState id resolution split now table one account i = omega (
  arith,
  one account i,
  update_check-count account i id (resolve_check resolution split now) (ended resolution)
      table.checks,
)
  where
    ended :
        (r : Resolution) (c : SplitCheck)
        → one_if (is_in_state account i (resolve_check r split now c))
          ≤ one_if (is_in_state account i c)
    ended Resolution.applied c = omega arith
    ended Resolution.kept c = omega arith

write_restarted-HasOneState :
    (id now : ℕ) (table : CheckTable)
    → HasOneState table
    → HasOneState (write_restarted id now table)
unfolding write_restarted is_in_state
write_restarted-HasOneState id now table one account i = omega (
  arith,
  one account i,
  update_check-count account i id (λ c. record c { restarted_at_utc = some now }) same table.checks,
)
  where
    same :
        (c : SplitCheck)
        → one_if (is_in_state account i (record c { restarted_at_utc = some now }))
          ≤ one_if (is_in_state account i c)
    same c = omega arith

-- The statements that write the table, in any order: also a second answer to a split check that was
-- read as needed before the first one was written.
pub data Step : CheckTable → CheckTable → Type 0 where
  insert :
      (table : CheckTable) (check : NewSplitCheck) (now : ℕ)
      → Step table (insert_split_check check now table)
  resolve :
      (table : CheckTable) (id : ℕ) (resolution : Resolution) (stock_split_id : Option ℕ) (now : ℕ)
      → Step table (write_resolution id resolution stock_split_id now table)
  restarted : (table : CheckTable) (id now : ℕ) → Step table (write_restarted id now table)

pub data Reach (s : CheckTable) : CheckTable → Type 0 where
  here : Reach s s
  next : {t u : CheckTable} → Reach s t → Step t u → Reach s u

Step-HasOneState : {t u : CheckTable} → Step t u → HasOneState t → HasOneState u
Step-HasOneState (insert t check now) h = insert_split_check-HasOneState check now t h
Step-HasOneState (resolve t id resolution split now) h =
    write_resolution-HasOneState id resolution split now t h
Step-HasOneState (restarted t id now) h = write_restarted-HasOneState id now t h

-- An instrument of an account has at most 1 split check that is needed, after any statements that
-- write the table.
pub Reach-HasOneState : {s t : CheckTable} → Reach s t → HasOneState s → HasOneState t
Reach-HasOneState here h = h
Reach-HasOneState (next steps step) h = Step-HasOneState step (Reach-HasOneState steps h)
