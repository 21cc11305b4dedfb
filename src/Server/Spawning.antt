-- ===== src/Server/Spawning.antt =====
-- `handle_call(:do_spawn, ...)` of lib/expty.ex, from the options that `init` has packed.
use ex_pty.Prelude.{ℕ, Bool, false, Option, none, some, List, [], ◌∷◌, Bytes, ℤ, pos}
use ex_pty.Server.CommandLine.{Text, args_to_command_line}
use ex_pty.Server.Terms.{Term, nil, bool, is_binary, binaries}
use ex_pty.Server.Calls.{Os, Callback, State}

pub record UnixPack : Type 0 where
  pub file : Term
  pub args : Term
  pub env : Term
  pub cwd : Text
  pub cols : Term
  pub rows : Term
  pub ibaudrate : Term
  pub obaudrate : Term
  pub uid : Term
  pub gid : Term
  pub is_utf8 : Bool
  pub close_fds : Term
  pub echo : Term
  pub helper_path : Text
  pub handle_flow_control : Bool
  pub flow_control_pause : Bytes
  pub flow_control_resume : Bytes
  pub on_data : Option Callback
  pub on_exit : Option Callback

pub record WinPack : Type 0 where
  pub file : Term
  pub args : Term
  pub env : Term
  pub cwd : Text
  pub cols : Term
  pub rows : Term
  pub debug : Term
  pub pipe_name : Text
  pub inherit_cursor : Term
  pub on_data : Option Callback
  pub on_exit : Option Callback

pub data Pack : Type 0 where
  unix : UnixPack → Pack
  win32 : WinPack → Pack

-- A reply of the NIF: what was asked for, `{:error, reason}`, another term, or an exception.
pub data NifReply (A : Type 0) : Type 0 where
  gives : A → NifReply A
  error : Text → NifReply A
  other : ℕ → NifReply A
  raises : NifReply A

-- The NIF, as the server sees it: `spawn_unix` gives the resource, the process and the terminal's name,
-- `spawn_win32` the id and the names of both ends, and `connect_win32` the process.
pub record Nif : Type 0 where
  pub spawn_unix : List Term → NifReply (ℕ × ℤ × Text)
  pub spawn_win32 : List Term → NifReply (ℕ × Text × Text)
  pub connect_win32 : List Term → NifReply ℤ

-- The arguments of `ExPTY.Nif.spawn_unix` and of `ExPTY.Nif.spawn_win32`.
unfoldable pub unix_args : UnixPack → List Term
unix_args o =
    o.file
    ∷ o.args
    ∷ o.env
    ∷ Term.binary o.cwd
    ∷ o.cols
    ∷ o.rows
    ∷ o.ibaudrate
    ∷ o.obaudrate
    ∷ o.uid
    ∷ o.gid
    ∷ bool o.is_utf8
    ∷ o.close_fds
    ∷ o.echo
    ∷ Term.binary o.helper_path
    ∷ []

unfoldable pub win_args : WinPack → List Term
win_args o = o.file ∷ o.cols ∷ o.rows ∷ o.debug ∷ Term.binary o.pipe_name ∷ o.inherit_cursor ∷ []

-- What is replied, with the server behind it: `:ok` and the state, with the process; an error, from the
-- NIF, and the options that stay; or no clause matches, and the server ends.
pub data Spawned : Type 0 where
  spawned : ℤ → State → Spawned
  refused : NifReply ℤ → Pack → Spawned
  crash : Spawned

-- The arguments of `ExPTY.Nif.connect_win32`.
unfoldable pub connect_args : WinPack → ℕ → Text → List Term
connect_args o pty line = Term.integer (pos pty) ∷ Term.binary line ∷ Term.binary o.cwd ∷ o.env ∷ []

-- `%T{}` on Unix.
abbrev pub unix_state : UnixPack → ℕ → State
unix_state o pipesocket = record {
  os_type = Os.unix;
  pipesocket = some pipesocket;
  pty = none;
  handle_flow_control = o.handle_flow_control;
  flow_control_pause = o.flow_control_pause;
  flow_control_resume = o.flow_control_resume;
  on_data = o.on_data;
  on_exit = o.on_exit;
  echo = o.echo;
  trace = [];
}

unfoldable pub spawn_unix : Nif → UnixPack → Spawned
spawn_unix nif o = elim (nif.spawn_unix (unix_args o)) [
  | gives (pipesocket, pid, pty) ↦ spawned pid (unix_state o pipesocket)
  | error reason ↦ crash
  | other t ↦ crash
  | raises ↦ crash
]

-- `%T{}` on Windows; a flag that is not set is `nil`, which counts as false.
abbrev pub win_state : WinPack → ℕ → State
win_state o pty = record {
  os_type = Os.win32;
  pipesocket = none;
  pty = some pty;
  handle_flow_control = false;
  flow_control_pause = [];
  flow_control_resume = [];
  on_data = o.on_data;
  on_exit = o.on_exit;
  echo = nil;
  trace = [];
}

-- No clause of `args_to_command_line_impl` takes what is no list of binaries.
unfoldable pub command_line : Term → Term → Option Text
command_line file args = elim (is_binary file) [
  | none ↦ none
  | some text ↦ elim (binaries args) [
    | none ↦ none
    | some argv ↦ some (args_to_command_line text argv)
  ]
]

unfoldable pub connect_win32 : Nif → WinPack → ℕ → Spawned
connect_win32 nif o pty = elim (command_line o.file o.args) [
  | none ↦ crash
  | some line ↦ elim (nif.connect_win32 (connect_args o pty line)) [
    | gives inner_pid ↦ spawned inner_pid (win_state o pty)
    | error reason ↦ refused (NifReply.error reason) (Pack.win32 o)
    | other t ↦ refused (NifReply.other t) (Pack.win32 o)
    | raises ↦ crash
  ]
]

unfoldable pub spawn_win32 : Nif → WinPack → Spawned
unfolding connect_win32
spawn_win32 nif o = elim (nif.spawn_win32 (win_args o)) [
  | gives (pty, conin, conout) ↦ connect_win32 nif o pty
  | error reason ↦ refused (NifReply.error reason) (Pack.win32 o)
  | other t ↦ crash
  | raises ↦ crash
]

unfoldable pub do_spawn : Nif → Pack → Spawned
unfolding spawn_unix spawn_win32
do_spawn nif (Pack.unix o) = spawn_unix nif o
do_spawn nif (Pack.win32 o) = spawn_win32 nif o
