-- ===== src/Materiality.antt =====
-- The scoring of alerts by app/alert_materiality.py.
pub mod Levels
pub mod Score
pub mod Memo
pub mod Known
pub mod Batch
pub mod Laws
pub mod Recall
pub mod Examples
