-- ===== src/Library.antt =====
-- The two libraries of the NIF, and how they are loaded: the tables of c_src/unix/pty.cpp and
-- c_src/win/conpty.cc, and the functions of lib/expty_nif.ex that they replace.
pub mod Defs
pub mod Windows
pub mod Unix
pub mod Bounded
pub mod Loading
