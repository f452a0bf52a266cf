-- ===== src/Firmware.antt =====
-- The firmware of the board: OpenSSD-1.1.0.
pub mod Layout
pub mod Receive
pub mod ScanList
pub mod Nand
pub mod Ftl
mod Chips
pub mod Backup
pub mod Sata
pub mod Greedy
