-- ===== src/Builders.antt =====
-- mizan-python/src/mizan/builders.py: validated request builders.
pub mod Facts
pub mod Metadata
pub mod Funding
pub mod Usage
