-- ===== src/Sessions.antt =====
-- packages/core/src/rheo_core/sessions: sessions, host secrets, grants and cookies.
pub mod Service
pub mod Grants
pub mod Cookies
pub mod Calls
