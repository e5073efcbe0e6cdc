-- ===== src/Python.antt =====
-- What the SDK uses of Python: values, texts, exceptions and the interpreter's tables.
pub mod Value
pub mod Text
pub mod Runtime
pub mod Numbers
