-- ===== src/Store.antt =====
-- storage: the store's keys, and two parts of a batch of writes.
pub mod Keys
pub mod Touch
pub mod Owners
pub mod Bolt
pub mod DecimalKeys
pub mod Truncate
pub mod Batch
pub mod Flush
pub mod Direct
