-- ===== src/Report.antt =====
-- report/: the comparison table and the score board, from bundles whose files have been read.
pub mod Format
pub mod Evidence
pub mod Compare
pub mod Score
