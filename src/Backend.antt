-- ===== src/Backend.antt =====
-- The backend modules: the connection to a daemon, and the module for the pingd daemon.
pub mod Connect
pub mod Pingd
