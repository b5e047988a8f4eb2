-- ===== src/Storage.antt =====
-- Package storage (pkg/storage): the tenant of a request, and the records that the stores hold.
pub mod Tenant
pub mod Records
pub mod Identity
pub mod Memory
