-- ===== src/Mcp.antt =====
-- internal/mcp/server.go and internal/mcp/tools.go: the server of the tools.
pub mod Values
pub mod Redacted
pub mod Schema
pub mod State
pub mod Handlers
pub mod Dispatch
pub mod Rpc
pub mod Effects
pub mod Specialists
pub mod Access
