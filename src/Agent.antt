-- ===== src/Agent.antt =====
-- app/agent.py: the research agent.
pub mod History
pub mod Stream
pub mod Loop
pub mod Select
pub mod Examples
pub mod Collect
pub mod Narrow
pub mod Options
