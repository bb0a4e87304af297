-- ===== src/Tests.antt =====
-- Runs of the theorems at concrete states of the kernel.
pub mod Sample
pub mod Pages
pub mod Tables
pub mod Environments
pub mod Calls
pub mod Library
pub mod Devices
pub mod Traps
pub mod Programs
pub mod Loading
pub mod Ending
pub mod Memory
pub mod Tss
pub mod Lapic
pub mod Primes
pub mod Monitor
