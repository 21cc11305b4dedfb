-- ===== src/Win/Conpty.antt =====
-- c_src/win/conpty.cc: the NIF for pseudo-consoles.
pub mod State
pub mod Step
pub mod Pipes
pub mod Spawn
pub mod Connect
pub mod Handlers
pub mod Numbered
pub mod Ending
pub mod Finds
pub mod Block
pub mod Starts
pub mod Writes
pub mod Sizes
pub mod Kept
pub mod Reached
pub mod Names
pub mod Threads
