-- ===== src/Settings.antt =====
-- packages/core/src/rheo_core/settings: the declared keys, their layers and the write path.
pub mod Value
pub mod Spec
pub mod Codec
pub mod Registry
pub mod Deployment
pub mod Floor
pub mod Resolver
pub mod WritePath
pub mod Keys
pub mod Exceptions
