-- ===== src/Tests.antt =====
-- Runs at concrete inputs, and the theorems at inputs that meet their hypotheses.
mod Kernel
mod Support
mod Small
mod Medium
mod Blocks
mod Callers
mod Whole
mod Big
mod Checks
mod Counts
