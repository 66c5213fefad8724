-- ===== src/Conffile.antt =====
-- The configuration file parser: src/libcommon/conffile.c.
pub mod Err
pub mod Lines
pub mod Args
pub mod Options
pub mod Parse
pub mod File
pub mod Message
