-- ===== src/Session.antt =====
-- src/modules/session/session.service.ts: one child module for each group of methods, and below
-- them what is proved of these.
pub mod Store
pub mod Issue
pub mod Login
pub mod Refresh
pub mod Consent
pub mod Revoke
pub mod Controller
