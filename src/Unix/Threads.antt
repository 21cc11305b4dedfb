-- ===== src/Unix/Threads.antt =====
-- The two threads that `expty_spawn` starts for a child (c_src/unix/pty.cpp), `pty_pipesocket_fn` and
-- `pty_waitpid`, and the callbacks of the event loop, as interleaved steps.
pub mod Defs
pub mod Runs
pub mod Delivery
pub mod Status
pub mod Faults
pub mod Quiet
