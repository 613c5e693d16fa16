-- ===== src/Jev.antt =====
-- The client of app/jev.py.
pub mod Answers
pub mod Ask
pub mod Attempts
pub mod Laws
pub mod Examples
