-- ===== src/Models/Built.antt =====
-- The types of the requests that the builders return.
pub mod Funding
pub mod Metadata
pub mod Usage
