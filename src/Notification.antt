-- ===== src/Notification.antt =====
-- internal/notification: the outbox, the worker that drains it, and the inbox.
pub mod Outbox
pub mod Worker
pub mod Inbox
