-- ===== src/Tests.antt =====
-- Tests of the definitions and concrete runs of the theorems.
pub mod Interpreter
pub mod Facts
pub mod Hooks
pub mod Runs
pub mod Calls
pub mod Inbox
pub mod Exports
pub mod Shapes
pub mod Scripts
