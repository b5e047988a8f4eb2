-- ===== src/Core.antt =====
-- Package core (pkg/core): rules, their expressions and parameters, configuration, publishers.
pub mod Rewrite
pub mod Value
pub mod Event
pub mod Libraries
pub mod EmitList
pub mod Resolve
pub mod Rules
pub mod Config
pub mod Flatten
pub mod Functions
pub mod Relaybus
pub mod Publisher
