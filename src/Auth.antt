-- ===== src/Auth.antt =====
-- Authentication and authorization (axontask-shared/src/auth).
pub mod Scopes
pub mod ScopeRules
pub mod Access
pub mod AccessRules
pub mod Compare
pub mod Tokens
pub mod TokenRules
pub mod ApiKeys
pub mod ApiKeyRules
