-- ===== src/Driver.antt =====
-- The character drivers under thix-0.3.7/driver/character.
pub mod Klog
mod Tests
