-- ===== src/Examples.antt =====
-- The theorems at concrete pins, interrupts, tables and devices.
pub mod Board
pub mod Devices
pub mod Network
pub mod Setup
pub mod Waits
pub mod Link
pub mod Names
pub mod Panel
pub mod Registry
pub mod Modes
pub mod Lines
