-- ===== src/Mcp.antt =====
-- internal/mcpsrv: the tools of the MCP server. The SDK that calls the handlers, the schemas and the
-- texts of the results are left out.
pub mod Admin
