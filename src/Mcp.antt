-- ===== src/Mcp.antt =====
-- The server of the Model Context Protocol: internal/mcp.
pub mod Permissions
