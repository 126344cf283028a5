-- ===== src/Jsonl.antt =====
-- src/storage/jsonl.rs: one session, one file, one line per transaction.
pub mod Read
pub mod Open
pub mod Bytes
pub mod Recover
pub mod Reopen
pub mod Durable
pub mod Crash
pub mod Create
pub mod Snapshot
pub mod Kept
pub mod Examples
