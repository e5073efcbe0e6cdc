-- ===== src/Client.antt =====
-- mizan-python/src/mizan/client.py: the synchronous clients.
pub mod Errors
pub mod Paths
pub mod Http
pub mod Transport
pub mod Retry
pub mod Commands
pub mod Consume
pub mod Admin
pub mod Scope
