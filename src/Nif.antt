-- ===== src/Nif.antt =====
-- c_src/nif_utils.h: terms made for the Erlang side, and arguments read from it.
pub mod Make
pub mod Scalars
pub mod Containers
pub mod Replies
pub mod Lists
pub mod Maps
