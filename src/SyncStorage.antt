-- ===== src/SyncStorage.antt =====
-- syncstorage/: Sync 1.5 storage. The modules below are named for the parts of the package.
pub mod Model
pub mod BatchId
pub mod Body
pub mod Offset
pub mod Store
pub mod Records
pub mod Staging
pub mod Paging
pub mod Calls
pub mod Web
pub mod Isolation
pub mod Clock
