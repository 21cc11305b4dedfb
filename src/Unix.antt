-- ===== src/Unix.antt =====
-- c_src/unix: the NIF for pseudo-terminals (pty.cpp) and the helper that it spawns (spawn-helper.cpp).
pub mod Termios
pub mod OpenPty
pub mod Sys
pub mod History
pub mod Registry
pub mod Invariant
pub mod Handlers
pub mod Write
pub mod Spawn
pub mod Threads
pub mod Together
pub mod Helper
