-- ===== src/Win/Conpty/Threads.antt =====
-- `create_write_pipe`, `read_data`, `pty_baton::write`, `OnProcessExitWinEvent` and `OnProcessExit` of
-- c_src/win/conpty.cc, as interleaved steps at one handle.
pub mod Defs
pub mod Delivery
pub mod Writing
pub mod Faults
pub mod Exits
pub mod Begin
