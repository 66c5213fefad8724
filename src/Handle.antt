-- ===== src/Handle.antt =====
-- The nodeupdown handle and the statics of the library: src/libnodeupdown/nodeupdown_api.h,
-- nodeupdown_util.c, nodeupdown.h (the error numbers), and the creation, the error number and the
-- state checks of nodeupdown.c and nodeupdown_devel.c. A handle pointer is not NULL here, but for
-- the functions that take an `Option`.
pub mod Err
pub mod State
pub mod Checks
