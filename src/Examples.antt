-- ===== src/Examples.antt =====
-- The theorems of the other modules, applied to concrete inputs.
mod Scope
mod Limits
mod Queue
mod Logs
mod Proxy
mod Runs
mod Normalize
mod Checks
mod Config
mod Store
mod Mcp
mod Adapter
