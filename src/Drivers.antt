-- ===== src/Drivers.antt =====
-- Package drivers (pkg/drivers): publishers from stored driver records, for each tenant.
pub mod Config
pub mod Cache
pub mod Routing
pub mod Dynamic
