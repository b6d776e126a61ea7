-- ===== src/SyncStorage/Web.antt =====
-- syncstorage/__init__.py: the transaction around every handler, and the handlers.
pub mod Run
pub mod Handlers
pub mod Routes
pub mod Atomic
pub mod RoundTrip
