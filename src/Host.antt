-- ===== src/Host.antt =====
-- The programs on the host: PCModule2/server and PCModule2/client.
pub mod Extents
pub mod Command
pub mod SataCom
pub mod DevMap
pub mod Compute
pub mod Client
pub mod Routines
pub mod ReqQueue
