-- ===== src/Tokens.antt =====
-- packages/core/src/rheo_core/tokens: what a token may carry, how it is written, issued and presented.
pub mod Policy
pub mod Format
pub mod Issue
pub mod Presentation
