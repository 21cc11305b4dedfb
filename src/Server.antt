-- ===== src/Server.antt =====
-- lib/expty.ex: the command line that the server makes for `connect_win32`.
pub mod CommandLine
pub mod Terms
pub mod Options
pub mod Init
pub mod Client
pub mod Reader
pub mod Quoting
pub mod RoundTrip
pub mod Calls
pub mod FlowControl
pub mod Spawning
pub mod Started
pub mod Session
pub mod Merged
pub mod Serving
pub mod Served
pub mod Passed
pub mod PassedWin
pub mod Defaults
pub mod Programs
pub mod Resizing
