-- ===== src/History.antt =====
-- Whole histories of the service: what holds of its tables after any calls of its methods and any
-- ticks of its jobs, in any order, whatever fails on the way.
pub mod Stocked
pub mod Changes
pub mod Untouched
pub mod Steps
pub mod Calls
pub mod Reached
pub mod Answers
