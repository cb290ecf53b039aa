-- ===== src/Proc.antt =====
-- Project 1/xv6-public/proc.h and proc.c: the process table, under ptable.lock.
mod Tests
pub mod Table
pub mod Loops
pub mod Lifecycle
pub mod Wait
pub mod Reap
pub mod Birth
pub mod Kill
pub mod Orphans
pub mod Leaving
pub mod Exit
pub mod Schedule
