-- ===== src/Examples.antt =====
-- mizan-python/examples: programs that use the SDK.
pub mod Inbox
pub mod Export
pub mod Funding
pub mod Flow
pub mod Failures
pub mod Lifecycle
pub mod Features
