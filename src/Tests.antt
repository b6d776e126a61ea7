-- ===== src/Tests.antt =====
-- Concrete tables, requests and tokens on which the theorems are applied.
mod Data
mod Storage
mod Web
mod Accounts
mod People
mod Oauth
mod Authorization
mod Devices
