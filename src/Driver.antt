-- ===== src/Driver.antt =====
-- src/lane.rs: the driver of one operation. A step reads the session, plans a move, and a move is at most one
-- effect between two conditional commits.
pub mod World
pub mod Terminal
pub mod Inbox
pub mod Checkpoint
pub mod Clock
pub mod Settle
pub mod Generate
pub mod Tools
pub mod Structural
pub mod Compact
pub mod Step
pub mod Graph
pub mod Walk
pub mod Abort
pub mod Ended
pub mod Sound
pub mod Deferred
pub mod Examples
