-- ===== src/Accounts.antt =====
-- Accounts, sessions and devices.
pub mod Database
pub mod Integrity
pub mod Credentials
pub mod Passwords
pub mod Sessions
pub mod UserAgents
pub mod Devices
