-- ===== src/Gateway.antt =====
-- internal/gateway: the Slack gateway.
pub mod Slack
