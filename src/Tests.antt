-- ===== src/Tests.antt =====
-- Runs of the code on small inputs, and the theorems at concrete inputs.
mod Settings
mod Storage
mod Operations
mod Dispatch
mod Tokens
mod World
mod Sessions
mod Grants
mod Contexts
mod Identity
mod Provisioning
