-- ===== src/Storage.antt =====
-- packages/core/src/rheo_core/storage: the engine pool, the unit of work, the control plane's tables
-- and the routing of a context to its workspace database.
pub mod Pools
pub mod UnitOfWork
pub mod Tables
pub mod ControlPlane
pub mod Repositories
pub mod Routing
pub mod Provisioning
