-- ===== src/Tokenserver.antt =====
-- tokenserver/__init__.py: which Sync uid an account has, and when it changes.
pub mod Users
pub mod Allocate
pub mod Forward
pub mod Rotation
