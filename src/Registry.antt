-- ===== src/Registry.antt =====
-- app/tool_registry.py: tool specifications, argument coercion and the request of a tool call.
pub mod Spec
pub mod Coerce
pub mod Request
pub mod Typed
pub mod Clean
pub mod Routing
pub mod Examples
