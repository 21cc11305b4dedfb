-- ===== src/Server/Calls.antt =====
-- The server of lib/expty.ex behind its spawning: `handle_call` and `handle_info` on a `%T{}`, with the calls
-- of the NIF and of the callbacks as events.
use ex_pty.Prelude.{
  ℕ, Bool, true, false, not, ◌&&◌, Option, none, some, List, [], ◌∷◌, Bytes, ℤ, ◌==◌, if◌then◌else◌,
}
use ex_pty.Server.Terms.{Atom, Term, bool}

pub data Os : Type 0 where
  unix win32 : Os

-- A module or a function of the user.
pub data Callback : Type 0 where
  module_ : Atom → Callback
  func : ℕ → Callback

-- A call of `ExPTY.Nif`, of which `none` is the handle `nil`, or of a callback.
pub data Event : Type 0 where
  write : Option ℕ → Bytes → Event
  kill : Option ℕ → ℤ → Event
  resize : Option ℕ → ℤ → ℤ → Event
  pause resume : Option ℕ → Event
  set_echo : Option ℕ → Bool → Event
  on_data : Callback → Bytes → Event
  on_exit : Callback → ℤ → ℤ → Event

-- The events so far, the newest first.
abbrev pub History : Type 0
History = List Event

-- `%T{}`, with the events and without the fields that no handler reads. `pipesocket` is `nil` on Windows;
-- `pty` is the id there, and `none` for the name that it is on Unix.
pub record State : Type 0 where
  pub os_type : Os
  pub pipesocket : Option ℕ
  pub pty : Option ℕ
  pub handle_flow_control : Bool
  pub flow_control_pause : Bytes
  pub flow_control_resume : Bytes
  pub on_data : Option Callback
  pub on_exit : Option Callback
  pub echo : Term
  pub trace : History

pub data Request : Type 0 where
  write : Bytes → Request
  kill : ℤ → Request
  update_on_data update_on_exit : Callback → Request
  resize : ℤ → ℤ → Request
  flow_control : Request
  set_flow_control : Bool → Request
  pause resume : Request
  set_echo : Bool → Request

-- A message of the NIF. That of an exit has a code and a signal on Unix, and a code only on Windows.
pub data Message : Type 0 where
  data_ : Bytes → Message
  exit : ℤ → ℤ → Message
  exit_code : ℤ → Message

-- Whether a call of a callback returns, or raises an exception. A module that was accepted with
-- `on_exit/3` only raises one at each exit.
abbrev pub Callbacks : Type 0
Callbacks = Event → Bool

-- What is replied: an atom, a flag, or what the NIF has replied to the event.
pub data Reply : Type 0 where
  ok not_implemented_yet : Reply
  flag : Bool → Reply
  of_nif : Event → Reply

-- A request is answered, or no clause matches it and the server ends.
pub data Answer : Type 0 where
  reply : Reply → State → Answer
  crash : Answer

abbrev pub same : Bytes → Bytes → Bool
same [] [] = true
same (x ∷ xs) (y ∷ ys) = (x == y) && same xs ys
same _ _ = false

abbrev pub log : Event → State → State
log ev s = record s { trace = ev ∷ s.trace }

-- `{:reply, ExPTY.Nif..., state}`
abbrev forward : Event → State → Answer
forward ev s = reply (Reply.of_nif ev) (log ev s)

unfoldable pub write_unix : Bytes → State → Answer
write_unix text s =
    if s.handle_flow_control
    then (if same text s.flow_control_pause
        then reply Reply.ok (log (Event.pause s.pipesocket) s)
        else if same text s.flow_control_resume
        then reply Reply.ok (log (Event.resume s.pipesocket) s)
        else reply Reply.ok s)
    else forward (Event.write s.pipesocket text) s

unfoldable pub handle_call : Request → State → Answer
unfolding write_unix
handle_call (Request.write text) s = elim (s.os_type) [
  | Os.unix ↦ write_unix text s
  | Os.win32 ↦ forward (Event.write s.pty text) s
]
handle_call (Request.kill signal) s = elim (s.os_type) [
  | Os.unix ↦ forward (Event.kill s.pipesocket signal) s
  | Os.win32 ↦ reply Reply.not_implemented_yet s
]
handle_call (Request.update_on_data callback) s =
    reply Reply.ok (record s { on_data = some callback })
handle_call (Request.update_on_exit callback) s =
    reply Reply.ok (record s { on_exit = some callback })
handle_call (Request.resize cols rows) s = elim (s.os_type) [
  | Os.unix ↦ forward (Event.resize s.pipesocket cols rows) s
  | Os.win32 ↦ forward (Event.resize s.pty cols rows) s
]
handle_call Request.flow_control s = reply (Reply.flag s.handle_flow_control) s
handle_call (Request.set_flow_control enable) s =
    let s' = if not enable && s.handle_flow_control then log (Event.resume s.pipesocket) s else s in
    reply Reply.ok (record s' { handle_flow_control = enable })
handle_call Request.pause s = forward (Event.pause s.pipesocket) s
handle_call Request.resume s = forward (Event.resume s.pipesocket) s
handle_call (Request.set_echo echo) s = elim (s.os_type) [
  | Os.unix ↦
      let ev = Event.set_echo s.pipesocket echo in
      reply (Reply.of_nif ev) (record (log ev s) { echo = bool echo })
  | Os.win32 ↦ crash
]

-- An exception of the callback ends the server.
abbrev call_back : Callbacks → Event → State → Option State
call_back returns ev s = if returns ev then some (log ev s) else none

-- `none` is the end of the server. No clause matches a message of an exit without a signal.
unfoldable pub handle_info : Callbacks → Message → State → Option State
handle_info returns (Message.data_ text) s = elim (s.on_data) [
  | none ↦ some s
  | some callback ↦ call_back returns (Event.on_data callback text) s
]
handle_info returns (Message.exit code signal) s = elim (s.on_exit) [
  | none ↦ some s
  | some callback ↦ call_back returns (Event.on_exit callback code signal) s
]
handle_info returns (Message.exit_code code) s = none

-- Requests and messages in the order in which they come.
pub data Input : Type 0 where
  call : Request → Input
  info : Message → Input

-- The state behind an input, or the end of the server.
unfoldable pub handle : Callbacks → Input → State → Option State
unfolding handle_call handle_info
handle returns (Input.call request) s = elim (handle_call request s) [
  | reply r s' ↦ some s'
  | crash ↦ none
]
handle returns (Input.info message) s = handle_info returns message s

unfoldable pub run : Callbacks → List Input → State → Option State
unfolding handle
run returns [] s = some s
run returns (input ∷ inputs) s = elim (handle returns input s) [
  | none ↦ none
  | some s' ↦ run returns inputs s'
]
