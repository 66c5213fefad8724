-- ===== src/Load.antt =====
-- `nodeupdown_load_data` and the release of what it holds: src/libnodeupdown/nodeupdown.c.
pub mod Config
pub mod Resolve
pub mod Connect
pub mod Hostnames
pub mod Choice
pub mod Data
pub mod Free
pub mod Stages
pub mod Steps
pub mod Outcome
