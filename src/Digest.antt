-- ===== src/Digest.antt =====
-- The alerts of a watchlist and their digest, of app/alerts.py.
pub mod Rows
pub mod Order
pub mod Queue
pub mod Build
pub mod Numbers
pub mod Sorted
pub mod Counts
pub mod Report
pub mod Labels
pub mod Feed
pub mod Examples
