-- ===== src/Module.antt =====
-- The loading of modules and the calls into them: src/libnodeupdown/nodeupdown_module.c, with the
-- module interfaces of src/libnodeupdown/nodeupdown/*.h.
pub mod Info
pub mod Find
pub mod Signature
pub mod Order
pub mod Default
pub mod Backend
pub mod Clusterlist
pub mod Config
pub mod Search
pub mod Counts
pub mod Loading
pub mod Laws
pub mod DefaultFrame
pub mod Calls
