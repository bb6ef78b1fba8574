-- ===== src/Invariants.antt =====
-- The checks of src/dataguard/invariants.py. `Report` has the report, `Window` the observation window,
-- `Status` what a report shows and `Verdict` what a comparison finds of one row; the others hold one
-- comparison each.
pub mod Report
pub mod Window
pub mod Status
pub mod Verdict
pub mod Existence
pub mod Query
pub mod Aggregate
pub mod Freshness
pub mod Checksum
