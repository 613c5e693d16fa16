-- ===== src/TtlCache.antt =====
-- app/_perf.py: `TTLCache` and the decorator `ttl_cached`. Readings of the monotonic clock are
-- arguments, counted in ticks; a time to live of 0 stands for any that is not positive. A `dict`
-- is a list of entries in insertion order. The lock makes each operation one step.
pub mod Store
pub mod Bounds
pub mod Freshness
pub mod Retention
pub mod Memo
pub mod Examples
