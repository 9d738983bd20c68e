-- ===== src/Queue.antt =====
-- packages/platform-windows/src/capture-queue.ts, the durable queue of captures in a directory.
pub mod Data
pub mod Disk
pub mod Act
pub mod Identity
pub mod State
pub mod Claims
pub mod Enqueue
pub mod Prune
pub mod Barrier
pub mod Open
pub mod Reset
pub mod Related
pub mod Delete
pub mod Remaining
pub mod Written
pub mod Index
pub mod Crash
pub mod Indexing
pub mod Passing
pub mod Claiming
pub mod Vouched
pub mod Calls
pub mod Blocking
pub mod Entering
pub mod Pruning
pub mod Opening
pub mod Leases
pub mod Endings
pub mod Search
pub mod Claimed
pub mod Retries
pub mod Keyed
pub mod Deleted
pub mod Barred
pub mod Retention
pub mod Sources
pub mod Cleared
pub mod Covered
pub mod Indexes
pub mod Runs
mod Tests
