-- ===== src/Lib.antt =====
-- Verification library of ExPTY: its native code (c_src) and the server before it (lib/expty.ex).
--
-- ExPTY opens pseudo-terminals for Erlang. Its native part is a NIF, c_src/unix/pty.cpp, which starts
-- a program on a terminal (`expty_spawn`), writes to it, resizes it and signals it, and the program
-- c_src/unix/spawn-helper.cpp, which `expty_spawn` starts and which becomes the program that was asked
-- for, or reports through a pipe that it cannot. On Windows the NIF is c_src/win/conpty.cc, with
-- c_src/win/path_util.cc. Arguments and replies go through c_src/nif_utils.h. The server of lib/expty.ex
-- calls the NIF, whose functions lib/expty_nif.ex names, and is sent the output and the exit of the
-- program by the threads of the NIF.
--
-- The parts and their files:
--   Prelude   shared names, Boolean tests, lists and integers over the native numbers, C strings.
--   Enif      erl_nif.h, which is not part of the repository: a record of the calls that the sources
--             make, and the record IsLawful of what its documentation promises of them.
--   Nif       c_src/nif_utils.h. Make: `atom`, `error`, `make_string`. Scalars: `get_atom` and the
--             overloads of `get`. Containers: `get_list` and `get_env`. Replies, Lists and Maps are
--             about these.
--   Unix.Termios  the terminal settings and sizes that pty.cpp builds and changes.
--   Unix.Sys  the state: the structs `pty_baton` and `pty_pipesocket`, the map `processes`, and the
--             history of the calls of the system. A Kernel answers each call from the history before
--             it, and so stands for any behaviour of the system. History, Registry and Invariant say
--             what a history means, and when the map and the batons are in order.
--   Unix.Spawn  `expty_spawn`. Args: its condition. Run: the calls behind the condition in order,
--             with each `goto done` as a jump, and the cleanup at the label. Where the run jumps there
--             before the file actions and the attributes are initialised, the cleanup destroys them all the
--             same, which is undefined, and so is the call: Early says when.
--   Unix.Handlers  `expty_kill`, `expty_resize`, `expty_pause`, `expty_resume`, `expty_set_echo`,
--             `expty_stub` and the destructor `cleanup`.
--   Unix.Write  `pty_pipesocket::write` and `expty_write`.
--   Unix.Threads  `pty_pipesocket_fn`, `pty_waitpid` and the callbacks `pty_after_*`, as steps on what
--             they share, with the replies of the system in the labels of the steps. Runs are
--             sequences of steps in any order. Nothing in the sources runs the event loop: Quiet is
--             about the runs without callbacks.
--   Unix.Together  calls of `pty_pipesocket::write` as steps, one for each access to the flag, the mutex
--             and the descriptor, among the steps of the threads of the same child.
--   Unix.Helper  `bail` and `main` of spawn-helper.cpp, with the numbers of c_src/unix/common.h.
--   Unix.OpenPty  `pty_openpty`, with its branch for a Sun.
--   Win.Path  c_src/win/path_util.cc; Search is about its search along PATH, and PathUtil is the
--             interface of path_util.h that conpty.cc uses.
--   Win.Consoles  c_src/win/conpty_console_list.cc.
--   Win.Conpty  c_src/win/conpty.cc. State: the handles, and the calls of Windows as a parameter Api.
--             Step: a handler is a chain of statements, each of which may end the call. Pipes:
--             `createDataServerPipe` and `CreateNamedPipesAndPseudoConsole`. Spawn: `expty_spawn`.
--             Connect: `expty_pty_connect`. Handlers: `write`, `expty_write`, `expty_resize` and
--             `expty_stub`. Threads: `create_write_pipe`, `read_data`, `write`,
--             `OnProcessExitWinEvent` and `OnProcessExit` as steps at one handle. The other files are
--             about these.
--   Library   `nif_functions` and `on_load` of both libraries, and the functions of
--             lib/expty_nif.ex, with `erlang:load_nif` as a parameter.
--   Server    lib/expty.ex. CommandLine: `args_to_command_line`, on texts of which each character is a
--             grapheme of its own. Reader: how a program takes its command line apart. Terms:
--             the terms that the server tells apart. Options: `default_pty_options` and the merge of
--             the options, with the host as a parameter. Init: `init`, whose exceptions are values.
--             Client: the functions of the module, but for `spawn`, as the requests that they send.
--             Spawning: `do_spawn`, from the options that `init` has packed, with the NIF as a
--             parameter. Calls: `handle_call` and `handle_info` of a spawned server, where a request
--             without a clause ends the server. Session: `spawn`, and a server from its options to
--             its end. The other files are about these: Merged, Started, Serving and Served
--             about the server, Passed, Defaults, Resizing and Programs about what c_src/unix makes of
--             it, and PassedWin about c_src/win.
--   Tests     an instance of each interface, and the theorems at concrete inputs.
--
-- Handlers of pty.cpp are functions from the arguments and the state to an Outcome: a reply with a state,
-- undefined behaviour (a baton that is read where there is none, file actions that are destroyed and were
-- never initialised), or `running`, for a loop whose fuel
-- is spent. `size_t` has 64 bits, the fields of a window size 16, and both wrap around.
--
-- Fuel: `get_list` takes the length of its list and one more. `get_env` and the loop of `write` take
-- it as an argument; one round more than there are pairs is enough for the first, and for the second
-- the length of the text times one more than the refusals that the terminal can make in a row. The
-- split of PATH takes one round more than there are delimiters.
--
-- Unix.Write takes a call of `write` whole, and sees of the threads only that the descriptor was closed;
-- Unix.Together takes any number of calls apart into steps, which interleave with those of the threads.
--
-- The steps of threads are taken one at a time, in any order, and each sees what those before it have
-- stored. So a data race, an unsynchronised access to a plain field that another thread stores to, such
-- as `fd_closed` in pty.cpp or `write_ready` in conpty.cc, is no undefined behaviour of the model, and no
-- result speaks of it. A set of `select` holds the descriptors below 1024, FD_SETSIZE.
--
-- A callback of the user is a parameter that says whether a call of it returns; an exception of it ends
-- the server. `error` and `make_string` store a NUL behind the binary that they have made; the binary is
-- modelled without it.
--
-- The calls of conpty.cc are taken one behind another, with the assignments of the threads between
-- them; the steps of its threads are about one handle at a time. `ptyCounter` has 32 bits and wraps
-- around, and so does the length that `WriteFile` is given.
--
-- Not modelled: the libuv handles in the structs, but for the state that a callback depends on;
-- `PtyKill` of conpty.cc, which is commented out; an exception of the NIF behind the spawning, which
-- would end the server of lib/expty.ex; data of `write` that are no binary; the time that
-- `GenServer.call` waits at most; the rest of lib; and 3rd_party, a copy of libuv.
pub mod Prelude
pub mod Enif
pub mod Nif
pub mod Unix
pub mod Win
pub mod Library
pub mod Server
pub mod Tests
