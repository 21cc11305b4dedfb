-- ===== src/Unix/Handlers.antt =====
-- The handlers of c_src/unix/pty.cpp that work on a resource, but for `expty_write`: `expty_kill`,
-- `expty_resize`, `expty_pause`, `expty_resume`, `expty_set_echo` and the stub; the destructor
-- `cleanup`; and the table that names them.
pub mod Defs
pub mod Settings
pub mod Processes
pub mod Resize
