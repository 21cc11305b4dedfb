-- ===== src/Unix/Spawn.antt =====
-- `expty_spawn` of c_src/unix/pty.cpp: its arguments, its run, and what holds of them.
pub mod Args
pub mod Jump
pub mod Run
pub mod Calls
pub mod Registered
pub mod Early
pub mod Result
pub mod Preserves
pub mod Total
