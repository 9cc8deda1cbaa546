-- ===== src/Operations.antt =====
-- packages/core/src/rheo_core/operations: the registry of operations and the dispatcher.
pub mod Registry
pub mod Dispatch
