-- ===== src/Pingd.antt =====
-- The pingd daemon: src/pingd/pingd_loop.c.
pub mod Ping
pub mod Nodes
pub mod Server
pub mod Loop
pub mod Index
pub mod Knows
pub mod Heard
pub mod Schedule
