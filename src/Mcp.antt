-- ===== src/Mcp.antt =====
-- app/mcp_http.py: the JSON-RPC endpoint through which MCP clients call the tools.
pub mod Tools
pub mod Protocol
pub mod Replies
pub mod Route
pub mod Content
pub mod Valid
pub mod Examples
