-- ===== src/Access.antt =====
-- Who may do what: the configuration of providers (pkg/auth, pkg/providerinstance), the tenant of a
-- request (pkg/server), and the state of OAuth (pkg/oauth).
pub mod Providers
pub mod Instances
pub mod Tenants
pub mod State
