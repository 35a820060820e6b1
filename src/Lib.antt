-- ===== src/Lib.antt =====
-- A model of parts of the backend of ATrade (backend/src/atrade), a program that reads bars of
-- instruments, calculates indicators and tests and runs trading strategies.
--
-- The parts and their files:
--
-- - Bar: foundation/bar.py, the bar periods and the rounding of a time to the bar grid.
-- - Ranges: market_data/bar_reading.py, the parts of a time range that are not saved, the cut to
--   complete bars and the merge of the bar sources. It uses Bar.
-- - Catalog: indicator/indicator_catalog.py and indicator/indicator_problems.py, the table of the
--   indicators and the check of parameters and outputs.
-- - Formula: indicator/formula_indicator.py, the formulas of custom indicators. Formula.Measure
--   has the measures of a window, Formula.Node the nodes and their `update`, Formula.Syntax,
--   Formula.Reading, Formula.CatalogCall and Formula.Parser the parser, and Formula.Indicator the
--   class FormulaIndicator. Formula.Meaning says what a formula means with no state, and
--   Formula.Window, Formula.Refinement and Formula.Runs compare the two. It uses Catalog.
-- - Ledger: the owner ledger of paper trading. Ledger itself has the entries and the sums of
--   paper_trading/owner_ledger_store.py, Ledger.Table the table with its statements and the moves of
--   paper_trading/forward_test_ledger.py, Ledger.Rules the order rules of
--   paper_trading/manual_order_ledger.py. The other files have the proofs.
-- - Orders: paper_trading/paper_account_check.py, foundation/order_ref.py and the cancel of an order
--   in paper_trading/paper_orders.py. It uses the open orders of Ledger.Rules.
-- - Gateway: the link to IBKR of ibkr/gateway_connection.py.
-- - Splits: paper_trading/stock_split_rules.py, on the owners of Ledger.
-- - SplitChecks: the stock splits of the ledger. SplitChecks has the table of
--   paper_trading/split_check_store.py, Bars the change of the stored bars of
--   market_data/stock_split_change.py, Changes and Checks the ledger change and the daily check of
--   paper_trading/stock_split_ledger.py, Answers its Apply split and Keep ledger, and Evidence
--   the candidates of market_data/stock_split_evidence.py. They use Ledger and Splits.
-- - ByHand: the ManualOrderLedger of paper_trading/manual_order_ledger.py, on Ledger, Orders and the
--   split checks of SplitChecks.
-- - Backtests: the requests and rows of backtest/backtest_store.py. Backtests.Rows and
--   Backtests.Store have its functions, Backtests.Sweeps its deletes and the statements of
--   backtest/parameter_sweep.py, Backtests.Grid the grid of a sweep, Backtests.Runner the queue of
--   backtest/backtest_runner.py with the limits of backtest/backtest_limits.py. Backtests.Steps
--   has the steps of a Web process, also a start whose answer is lost and an end that is not written,
--   and the invariant, which Backtests.Sound proves by Lifecycle, RowStates, TableStates,
--   WriteStates and TaskStates.
-- - ForwardTests: the tables of forward_test/forward_test_store.py (Store, and Insert for the start)
--   and the worker of forward_test/forward_test_worker.py (Worker, with its child processes in
--   Child). Sound has the steps of the Web process, the worker and the child processes, with the
--   invariant that Rows, Children, Compares, Ends and Passes prove; Others, OnePass and Requests are
--   about the rows of one pass of the worker. It uses the moves of Ledger.
-- - Prelude: shared helpers, with integers over the native numbers (Int) and the update of a table
--   (Tables). Examples: runs of the model.
--
-- How the code is translated: a time is a number of microseconds since the UNIX epoch. A deque is a
-- list, oldest value first. An attribute of an object that a method changes is a field of the value
-- that the method gets and gives. An exception is `none`, or a constructor of `Parsed` with the
-- column and the kind of message. A protocol with its classes is one data type. The loops are
-- recursion on a list or on the tree of an expression. The loop that starts backtests is on
-- fuel, its concurrency, since each round starts a child; the search of a split ratio counts its 50
-- denominators.
--
-- A table of the database is the list of its rows, and a statement that writes gives the new table. A
-- Decimal of the ledger is its number of smallest units, so sums are exact, which Python's are up to
-- 28 digits.
--
-- Parameters: Python's floats (Formula.Floats: the finite floats, with `none` for an operation that
-- raises or is not finite; FloatOrder: their order), math.isqrt and int.bit_length (IntegerMath),
-- ast.parse and str.strip (Python) and the indicator classes of the catalog (CatalogClass); products,
-- quotients, rounding and fractions of decimals (Decimals, Rounding, Fractions), the split of an orderRef
-- (OrderRefs), and what IB Gateway answers (Amounts, Gateway, LinkAnswer); the last
-- stored daily close (SplitMarket).
--
-- Not modelled: the texts of messages, the cache of count_formula_bars, times before 1970, the
-- SQL database itself with its locks, the network and the other packages of the backend.
pub mod Backtests
pub mod Bar
pub mod ByHand
pub mod Catalog
pub mod Examples
pub mod Formula
pub mod ForwardTests
pub mod Gateway
pub mod Ledger
pub mod Orders
pub mod Prelude
pub mod Ranges
pub mod SplitChecks
pub mod Splits
