-- ===== src/ToolGateway.antt =====
-- The way out to providers: packages/backend/src/revpilot/modules/tool_gateway/.
pub mod Broker
pub mod Scrub
pub mod Gateway
mod Tests
