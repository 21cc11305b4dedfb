-- ===== src/Unix/Together.antt =====
-- Calls of `pty_pipesocket::write` at the same time as the threads of their child (c_src/unix/pty.cpp).
pub mod Defs
pub mod Exclusion
pub mod Late
pub mod Blocks
pub mod Advances
pub mod Child
