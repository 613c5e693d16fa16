-- ===== src/Watchlists.antt =====
-- app/watchlists.py: the symbols of a public TradingView watchlist.
pub mod Symbols
pub mod Unique
pub mod Examples
