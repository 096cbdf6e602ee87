-- ===== src/Models.antt =====
-- The tables of API keys, usage counters, users, tenants and webhooks (axontask-shared/src/models).
pub mod ApiKeys
pub mod Revocation
pub mod Usage
pub mod Quantities
pub mod Counting
pub mod Upserts
pub mod Updates
pub mod Users
pub mod UserUpdates
pub mod Tenants
pub mod TenantUpdates
pub mod Planned
pub mod Webhooks
pub mod WebhookUpdates
pub mod Dispatch
