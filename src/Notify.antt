-- ===== src/Notify.antt =====
-- internal/notify: notifications. This file has what goes out to the sinks (notifier.go).
pub mod Embed
pub mod Context
pub mod Throttle
pub mod Sending
