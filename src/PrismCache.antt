-- ===== src/PrismCache.antt =====
-- The cache of app/prism/cache.py.
pub mod Keys
pub mod Store
pub mod History
pub mod Quiet
pub mod Outage
pub mod Examples
