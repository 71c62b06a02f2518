-- ===== src/Webhooks.antt =====
-- apps/webhooks: what the telephony providers report, and the log of it.
pub mod Sanitize
pub mod FreeSwitch
pub mod Telnyx
