-- ===== src/Throttle.antt =====
-- throttle.py: the failed password checks of each account inside a sliding window.
pub mod Model
pub mod Bounds
pub mod Lockout
pub mod Attempts
