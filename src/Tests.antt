-- ===== src/Tests.antt =====
-- Runs of the theorems on concrete data.
pub mod Samples
pub mod Rewriting
pub mod Engine
pub mod Publishing
pub mod Routing
pub mod Records
pub mod Webhooks
pub mod Working
pub mod Subscribing
pub mod Stores
pub mod Accessing
