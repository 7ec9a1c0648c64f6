-- ===== src/Kernel/Tests.antt =====
-- Runs of the process side of the kernel, and its theorems at concrete inputs.
mod Ids
mod Times
mod Signals
mod Runs
mod Sleepers
