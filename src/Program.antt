-- ===== src/Program.antt =====
-- The program whatsup: src/whatsup/whatsup.c.
pub mod State
pub mod Modules
pub mod Table
pub mod Usage
pub mod Dispatch
pub mod Cmdline
pub mod Nodes
pub mod Output
pub mod Log
pub mod Main
pub mod Replay
pub mod Quiet
pub mod Rounds
pub mod Watched
pub mod Given
pub mod Bounds
pub mod Settled
pub mod Loaded
pub mod Unloaded
pub mod Aligned
pub mod Selected
pub mod Library
pub mod Tokens
pub mod Returns
pub mod Started
pub mod Asked
