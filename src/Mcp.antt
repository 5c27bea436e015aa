-- ===== src/Mcp.antt =====
-- app/mcp: the gate in front of the tools, and the targets that they work on.
pub mod Auth
pub mod Targets
pub mod Gate
