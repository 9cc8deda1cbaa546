-- ===== src/Identity.antt =====
-- packages/core/src/rheo_core/identity: from a provider's identity to an account.
pub mod Accounts
