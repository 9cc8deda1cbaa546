-- ===== src/Boundary.antt =====
-- packages/core/src/rheo_core/boundary: the factories of contexts.
pub mod Factories
