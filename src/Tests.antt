-- ===== src/Tests.antt =====
-- Concrete runs: a term language that meets the laws of the NIF interface, a system, and the theorems
-- at inputs of these.
mod Erl
mod Digits
mod Machine
mod Nif
mod Spawn
mod Handlers
mod Write
mod Helper
mod Threads
mod Together
mod Win
mod Conpty
mod Shell
mod Library
mod Server
mod Session
mod PassedWin
