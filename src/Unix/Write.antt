-- ===== src/Unix/Write.antt =====
-- `pty_pipesocket::write` and `expty_write` of c_src/unix/pty.cpp.
pub mod Defs
pub mod Rounds
pub mod Prefix
pub mod Ends
pub mod Reply
pub mod Stuck
