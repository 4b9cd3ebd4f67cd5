-- ===== src/Write.antt =====
-- The gated write path: preview, validate, execute
-- (src/odoo_mcp/agent_tools.py, server_core.py, tools_write.py, write_policy.py).
pub mod Host
pub mod Names
pub mod Preview
pub mod Validate
pub mod Approvals
pub mod Execute
pub mod Uploads
pub mod Tools
pub mod Confirmation
mod Tests
