-- ===== src/Models.antt =====
-- mizan-python/src/mizan/models.py: the request and response types, as shapes that a value may have.
pub mod Shape
pub mod Laws
pub mod Built
pub mod Payments
pub mod Metadata
pub mod Consumption
pub mod Decisions
pub mod Previews
pub mod Operations
