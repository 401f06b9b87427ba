-- ===== src/Db.antt =====
-- pool/db.go: the pool's database as the contents of the pool bucket, transactions over it, the
-- creation, purge and clearing of buckets, and the forms of access that the record types share.
mod State
pub mod Buckets
pub mod Records
pub mod Prune
pub mod Rows
pub mod Deletes
pub mod Kept
pub mod Purged
unfoldable pub use State.*
