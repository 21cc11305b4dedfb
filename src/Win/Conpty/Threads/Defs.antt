-- ===== src/Win/Conpty/Threads/Defs.antt =====
-- `create_write_pipe`, `read_data`, `pty_baton::write`, `OnProcessExitWinEvent` and `OnProcessExit` of
-- c_src/win/conpty.cc. A step is one access to what they share, the handle of a terminal; steps are taken
-- one at a time, in any order, and data races are not looked at.
use ex_pty.Prelude.{
  ℕ, ◌≡◌, Bool, true, false, ◌||◌, Option, none, some, List, [], ◌∷◌, Bytes, ℤ, ◌==◌, length, take,
  if◌then◌else◌,
}
use ex_pty.Win.Conpty.Handlers.{dword}

-- What they do to the world.
pub data Event : Type 0 where
  data_sent : Bytes → Event
  exit_sent : ℤ → Event
  written : ℕ → Bytes → Event
  freed : ℕ → Event
  mutex_destroyed : Event

-- Where the thread that opens the writing end is: before its check, before `CreateFileW`, before the
-- assignments of `hRealIn` and of `write_ready`, or at its end.
pub data Writer : Type 0 where
  checking opening : Writer
  storing : ℕ → Writer
  enabling done : Writer

-- Where the reading thread is: before `CreateFileW`, `ReadFile`, `enif_make_new_binary` or `enif_send`. It has
-- no end.
pub data Reader : Type 0 where
  opening : Reader
  reading : ℕ → Reader
  allocating sending : ℕ → Bytes → Reader

-- Where the call of `write` is, of which the server makes one at a time: before `uv_mutex_lock`, `WriteFile` or `uv_mutex_unlock`.
pub data Caller : Type 0 where
  away : Caller
  locking writing : Bytes → Caller
  unlocking : Caller

-- The process runs, or has ended and has woken the event loop; or `OnProcessExit` is before `enif_send`,
-- `uv_mutex_destroy`, `enif_free` or its last assignment, or at its end.
pub data Exit : Type 0 where
  running sent : Exit
  reporting : ℤ → Exit
  destroying freeing clearing done : Exit

-- `mutex` says whether the mutex is there, and `locked` whether it is held.
pub record Shell : Type 0 where
  pub writer : Writer
  pub reader : Reader
  pub caller : Caller
  pub exit : Exit
  pub real_in : Option ℕ
  pub write_ready : Bool
  pub mutex : Bool
  pub locked : Bool
  pub process : Option ℕ
  pub trace : List Event

-- A step and the reply of the call in it; `opens` and `opens_reading` give INVALID_HANDLE_VALUE as `none`,
-- `reads []` is a `ReadFile` without data, and `writes none` one of `WriteFile` that fails.
pub data Label : Type 0 where
  checks : Label
  opens : Option ℕ → Label
  stores enables : Label
  opens_reading : Option ℕ → Label
  reads : Bytes → Label
  allocates : Bool → Label
  sends : Label
  calls : Bytes → Label
  locks : Label
  writes : Option ℕ → Label
  unlocks : Label
  fires : Label
  exits : ℤ → Label
  reports destroys frees clears : Label

-- A step is not to be taken here, uses what is no more or not yet there, which is undefined behaviour, or
-- moves on. Steps are taken one at a time; data races are not looked at.
pub data Move : Type 0 where
  blocked undefined : Move
  moved : Shell → Move

abbrev pub is_freed : ℕ → List Event → Bool
is_freed p [] = false
is_freed p (Event.freed q ∷ h) = (q == p) || is_freed p h
is_freed p (_ ∷ h) = is_freed p h

-- An access to the Erlang pid, which may be a null pointer, or freed.
abbrev with_pid : Shell → (ℕ → Move) → Move
with_pid c f = elim (c.process) [
  | none ↦ undefined
  | some p ↦ if is_freed p c.trace then undefined else f p
]

-- `create_write_pipe`
unfoldable pub writer_step : Label → Writer → Shell → Move
writer_step Label.checks Writer.checking c =
    moved (record c { writer = if c.write_ready then Writer.done else Writer.opening })
writer_step (Label.opens none) Writer.opening c = moved c
writer_step (Label.opens (some pipe)) Writer.opening c =
    moved (record c { writer = Writer.storing pipe })
writer_step Label.stores (Writer.storing pipe) c =
    moved (record c { writer = Writer.enabling; real_in = some pipe })
writer_step Label.enables Writer.enabling c =
    moved (record c { writer = Writer.done; write_ready = true })
writer_step _ _ c = blocked

-- `read_data`
unfoldable pub reader_step : Label → Reader → Shell → Move
reader_step (Label.opens_reading none) Reader.opening c = moved c
reader_step (Label.opens_reading (some pipe)) Reader.opening c =
    moved (record c { reader = Reader.reading pipe })
reader_step (Label.reads []) (Reader.reading pipe) c = moved c
reader_step (Label.reads (b ∷ bytes)) (Reader.reading pipe) c =
    moved (record c { reader = Reader.allocating pipe (b ∷ bytes) })
reader_step (Label.allocates false) (Reader.allocating pipe bytes) c =
    moved (record c { reader = Reader.reading pipe })
reader_step (Label.allocates true) (Reader.allocating pipe bytes) c =
    moved (record c { reader = Reader.sending pipe bytes })
reader_step Label.sends (Reader.sending pipe bytes) c =
    with_pid c λ p.
      moved (record c { reader = Reader.reading pipe; trace = Event.data_sent bytes ∷ c.trace })
reader_step _ _ c = blocked

-- `pty_baton::write`. A failing `WriteFile` leaves the mutex locked.
unfoldable pub caller_step : Label → Caller → Shell → Move
caller_step (Label.calls text) Caller.away c =
    moved (record c { caller = if c.write_ready then Caller.locking text else Caller.away })
caller_step Label.locks (Caller.locking text) c =
    if c.mutex
    then (if c.locked
        then blocked
        else moved (record c { caller = Caller.writing text; locked = true }))
    else undefined
caller_step (Label.writes r) (Caller.writing text) c = elim (c.real_in) [
  | none ↦ undefined
  | some pipe ↦ elim r [
    | none ↦ moved (record c { caller = Caller.away })
    | some n ↦ moved (record c {
      caller = Caller.unlocking;
      trace = Event.written pipe (take n (take (dword (length text)) text)) ∷ c.trace;
    })
  ]
]
caller_step Label.unlocks Caller.unlocking c =
    if c.mutex then moved (record c { caller = Caller.away; locked = false }) else undefined
caller_step _ _ c = blocked

-- `OnProcessExitWinEvent`, and `OnProcessExit` where the event loop runs it with the exit code.
unfoldable pub exit_step : Label → Exit → Shell → Move
exit_step Label.fires Exit.running c = moved (record c { exit = Exit.sent })
exit_step (Label.exits code) Exit.sent c = moved (record c { exit = Exit.reporting code })
exit_step Label.reports (Exit.reporting code) c =
    with_pid c
      λ p. moved (record c { exit = Exit.destroying; trace = Event.exit_sent code ∷ c.trace })
exit_step Label.destroys Exit.destroying c =
    moved (record c { exit = Exit.freeing; mutex = false; trace = Event.mutex_destroyed ∷ c.trace })
exit_step Label.frees Exit.freeing c =
    with_pid c λ p. moved (record c { exit = Exit.clearing; trace = Event.freed p ∷ c.trace })
exit_step Label.clears Exit.clearing c = moved (record c { exit = Exit.done; process = none })
exit_step _ _ c = blocked

pub data Side : Type 0 where
  opens_ reads_ calls_ exits_ : Side

abbrev pub side : Label → Side
side Label.checks = opens_
side (Label.opens _) = opens_
side Label.stores = opens_
side Label.enables = opens_
side (Label.opens_reading _) = reads_
side (Label.reads _) = reads_
side (Label.allocates _) = reads_
side Label.sends = reads_
side (Label.calls _) = calls_
side Label.locks = calls_
side (Label.writes _) = calls_
side Label.unlocks = calls_
side _ = exits_

-- One step at the handle.
unfoldable pub step : Label → Shell → Move
unfolding writer_step reader_step caller_step exit_step
step l c = elim (side l) [
  | opens_ ↦ writer_step l c.writer c
  | reads_ ↦ reader_step l c.reader c
  | calls_ ↦ caller_step l c.caller c
  | exits_ ↦ exit_step l c.exit c
]

-- The handle as `expty_pty_connect` starts its threads; `p` is the Erlang pid.
abbrev pub started : ℕ → Shell
started p = record {
  writer = Writer.checking;
  reader = Reader.opening;
  caller = Caller.away;
  exit = Exit.running;
  real_in = none;
  write_ready = false;
  mutex = true;
  locked = false;
  process = some p;
  trace = [];
}

-- A run, with its steps in reverse order.
pub data Run : List Label → Shell → Shell → Type 0 where
  stay : {c : Shell} → Run [] c c
  go :
      {labels : List Label} {c c' c'' : Shell} (l : Label)
      → Run labels c c'
      → step l c' ≡ moved c''
      → Run (l ∷ labels) c c''
