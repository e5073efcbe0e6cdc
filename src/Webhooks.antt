-- ===== src/Webhooks.antt =====
-- mizan-python/src/mizan/webhooks.py: the webhook receiver.
pub mod Amounts
pub mod Ledger
pub mod Notification
pub mod Types
pub mod Receiver
pub mod Endpoint
