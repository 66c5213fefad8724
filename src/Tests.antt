-- ===== src/Tests.antt =====
-- The library run on a sample installation, and the theorems applied to it.
pub mod Sample
mod Pingd
mod Conffile
mod Load
mod Query
mod Modules
mod Hostsfile
pub mod Installation
mod Program
