-- ===== src/SyncStorage/Store.antt =====
-- syncstorage/store.py. Each method of `SyncStore` takes the store as its first argument; a read
-- is a function of the tables, a write an action on them.
pub mod Collections
pub mod Timestamps
pub mod Reads
pub mod Writes
pub mod Batches
