-- ===== src/Log.antt =====
-- Project 1/xv6-public/log.c: the redo log of the file system, on a disk that may lose power.
mod Tests
pub mod Disk
pub mod Commit
pub mod Loops
pub mod Install
pub mod Recovery
pub mod Atomic
pub mod Write
pub mod Transaction
pub mod Cycle
