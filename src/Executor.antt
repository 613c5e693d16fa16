-- ===== src/Executor.antt =====
-- app/tool_executor.py: a tool call run in process, its images lifted out and its result trimmed.
pub mod Compact
pub mod Artifacts
pub mod Runtime
pub mod View
pub mod Run
pub mod Examples
