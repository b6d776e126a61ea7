-- ===== src/Python.antt =====
-- What the code uses of Python's standard library: `str` and `int` on decimal text, and base64.
pub mod Decimal
pub mod Strings
pub mod Urls
pub mod Base64
