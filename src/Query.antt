-- ===== src/Query.antt =====
-- What a program asks of a loaded handle: src/libnodeupdown/nodeupdown.c.
pub mod Message
pub mod Nodes
pub mod Nodelist
pub mod Frame
pub mod Copy
pub mod Arrays
pub mod Times
pub mod Members
