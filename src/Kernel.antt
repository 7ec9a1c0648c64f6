-- ===== src/Kernel.antt =====
-- The process side of the kernel, under thix-0.3.7/kernel.
pub mod Tss
pub mod Kpid
pub mod Process
pub mod Resource
pub mod Clock
pub mod Alarm
pub mod Itimer
pub mod Run
pub mod Priority
pub mod Signal
pub mod Action
pub mod Sleep
pub mod Interrupt
pub mod Semaphore
pub mod Timer
mod Tests
