-- ===== src/Examples.antt =====
-- Concrete data and runs: the theorems at inputs like those of the program's own tests.
pub mod Grids
pub mod Numbers
pub mod Sweeps
pub mod StockSplits
pub mod SplitEvidence
pub mod OrdersByHand
pub mod ForwardTestRuns
pub mod Formulas
pub mod Ledgers
pub mod Brokers
