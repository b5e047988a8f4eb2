-- ===== src/Webhook.antt =====
-- Package webhook (pkg/webhook): from a webhook event to its published messages and its log.
pub mod Matches
pub mod Transform
pub mod Payload
pub mod Publish
pub mod EventLog
pub mod RuleStore
