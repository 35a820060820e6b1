-- ===== src/Formula.antt =====
-- Formula indicators: the files are those of the parts of formula_indicator.py.
pub mod Floats
pub mod Measure
pub mod Node
pub mod Meaning
pub mod Extreme
pub mod Window
pub mod Trail
pub mod Refinement
pub mod LookBack
pub mod Syntax
pub mod Reading
pub mod CatalogCall
pub mod Parser
pub mod Parsing
pub mod Indicator
pub mod Runs
