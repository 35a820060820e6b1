-- ===== src/ForwardTests/Child.antt =====
-- The running children of the worker, and the requests to them
-- (backend/src/atrade/forward_test/forward_test_worker.py). The start of a child and its exit code are
-- answers.
use atrade.Prelude.{ℕ, ◌==◌, Bool, true, false, List, [], ◌∷◌, Option, none, some, if◌then◌else◌}
use atrade.Prelude.Int.{ℤ}
use atrade.ForwardTests.{ForwardTestRow, Tables}

pub data ChildMode : Type 0 where
  run cancel_orders : ChildMode

abbrev pub is_run : ChildMode → Bool
is_run ChildMode.run = true
is_run ChildMode.cancel_orders = false

-- `is_asked` is the state of the process: `request_stop` was called.
pub record RunningChild : Type 0 where
  pub mode : ChildMode
  pub started_at_utc : ℕ
  pub is_stop_requested : Bool
  pub is_restart_requested : Bool
  pub is_asked : Bool

pub record ForwardTestWorker : Type 0 where
  pub tables : Tables
  pub running_children : List (ℕ × RunningChild)

-- `read_exit_code` of the child of a forward test, `start_child` (false when it raises) and
-- `is_ready_to_run`.
pub record Answers : Type 0 where
  pub now_utc : ℕ
  pub read_exit_code : ℕ → Option ℤ
  pub starts_child : ℕ → ChildMode → Bool
  pub is_ready_to_run : ForwardTestRow → Bool

unfoldable pub get_child : ℕ → List (ℕ × RunningChild) → Option RunningChild
get_child id [] = none
get_child id ((other, child) ∷ children) =
    let rest = get_child id children in if other == id then some child else rest

unfoldable pub delete_child : ℕ → List (ℕ × RunningChild) → List (ℕ × RunningChild)
delete_child id [] = []
delete_child id ((other, child) ∷ children) =
    let rest = delete_child id children in if other == id then rest else (other, child) ∷ rest

-- The code does not read the order of the dictionary.
unfoldable pub put_child : ℕ → RunningChild → List (ℕ × RunningChild) → List (ℕ × RunningChild)
unfolding delete_child
put_child id child children = (id, child) ∷ delete_child id children
