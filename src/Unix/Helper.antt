-- ===== src/Unix/Helper.antt =====
-- c_src/unix/spawn-helper.cpp: the program that `posix_spawn` starts and that becomes the child, and
-- the report (common.h) by which it tells `expty_spawn` that it cannot.
pub mod Defs
pub mod Start
pub mod Becomes
pub mod Failure
pub mod Privileges
