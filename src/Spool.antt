-- ===== src/Spool.antt =====
-- internal/spool/spool.go: the durable, file-backed queue of anonymized signals.
pub mod Name
pub mod Dir
pub mod Queue
pub mod System
pub mod World
pub mod Kept
pub mod Commit
pub mod Durability
pub mod Within
pub mod Counted
pub mod Capacity
pub mod Outcome
pub mod Run
pub mod Fifo
pub mod Drain
pub mod Life
pub mod Disk
