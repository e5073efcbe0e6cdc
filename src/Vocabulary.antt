-- ===== src/Vocabulary.antt =====
-- The closed vocabularies of enums.py, but for `ErrorCode`, which is in Client/Errors/Codes.
pub mod Members
pub mod Commerce
pub mod Usage
pub mod Capabilities
pub mod Closed
