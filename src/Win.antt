-- ===== src/Win.antt =====
-- c_src/win: the search along PATH (path_util.cc), the program that lists the processes of a console
-- (conpty_console_list.cc), and the NIF for pseudo-consoles (conpty.cc).
pub mod Path
pub mod Search
pub mod PathUtil
pub mod Consoles
pub mod Conpty
