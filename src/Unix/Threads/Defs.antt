-- ===== src/Unix/Threads/Defs.antt =====
-- `pty_pipesocket_fn`, `pty_waitpid`, `pty_after_waitpid`, `pty_after_pipesocket`, `pty_after_close` and
-- `pty_after_close_pipesocket` of c_src/unix/pty.cpp. A step is one access to what the threads share.
use ex_pty.Prelude.{
  ℕ, Bool, true, false, ◌||◌, Option, none, some, List, [], ◌∷◌, Bytes, ℤ, pos, ◌==◌, leb,
  if◌then◌else◌,
}
use ex_pty.Unix.Sys.{Baton}

-- What the threads and the callbacks do to the world.
pub data Event : Type 0 where
  data_sent : Bytes → Event
  exit_sent : ℤ → ℤ → Event
  closed : ℕ → Event
  killed : ℕ → ℤ → Event
  freed : ℕ → Event
  erased : ℕ → Event
  mutex_destroyed resource_released : Event

-- Where the reading thread is: at the head of its loop, before `select`, before `read`, before the
-- binary of a message is made (`none` for one of SIZE_MAX bytes), before `enif_send`, before `close`,
-- before `kill`, before `uv_async_send`, or at its end.
pub data Reader : Type 0 where
  testing selecting reading : Reader
  allocating : Option Bytes → Reader
  sending : Bytes → Reader
  closing hanging_up leaving done : Reader

-- Where the waiting thread is: before `waitpid`, `enif_send`, `enif_free`, `uv_async_send`, `erase`, or at
-- its end.
pub data Waiter : Type 0 where
  waiting reporting freeing notifying erasing done : Waiter

-- A handle of the event loop.
pub data Async : Type 0 where
  idle sent closing closed : Async

pub record Child : Type 0 where
  pub reader : Reader
  pub waiter : Waiter
  pub fd : ℕ
  -- `none` once deleted.
  pub baton : Option Baton
  -- `pipesocket->process`
  pub process : Option ℕ
  pub reader_async : Async
  pub waiter_async : Async
  pub trace : List Event

-- What `waitpid` says: it was interrupted, it failed and left the status as it was, or it has the
-- status of a child that exited or was signalled.
pub data Wait : Type 0 where
  interrupted failed : Wait
  exited signalled : ℤ → Wait

-- A step and the reply of the call in it. `selects none` is a `select` that fails, but for EINTR, and
-- `selects (some b)` one behind which `FD_ISSET` is b; `reads none` is a `read` of -1.
pub data Label : Type 0 where
  tests : Label
  selects : Option Bool → Label
  reads : Option Bytes → Label
  allocates : Bool → Label
  sends closes hangs_up leaves : Label
  waits : Wait → Label
  reports frees notifies erases : Label
  after_waitpid after_pipesocket after_close after_close_pipesocket : Label

-- A step is not to be taken here, is undefined behaviour, or moves on. Steps are taken one at a time; data
-- races are not looked at.
pub data Move : Type 0 where
  blocked undefined : Move
  moved : Child → Move

abbrev pub is_freed : ℕ → List Event → Bool
is_freed p [] = false
is_freed p (Event.freed q ∷ h) = (q == p) || is_freed p h
is_freed p (_ ∷ h) = is_freed p h

-- An access to the baton, or to an Erlang pid, that may be gone.
abbrev with_baton : Child → (Baton → Move) → Move
with_baton c f = elim (c.baton) [ none ↦ undefined | some b ↦ f b ]

abbrev with_pid : Option ℕ → Child → (ℕ → Move) → Move
with_pid none c f = undefined
with_pid (some p) c f = if is_freed p c.trace then undefined else f p

-- `enif_free` does nothing to a null pointer.
abbrev free_pid : Option ℕ → Child → Child → Move
free_pid none c c' = moved c'
free_pid (some p) c c' =
    if is_freed p c.trace then undefined else moved (record c' { trace = Event.freed p ∷ c.trace })

-- FD_SETSIZE. A set of `select` holds the descriptors below it; FD_SET of another one is undefined.
abbrev pub fd_setsize : ℕ
fd_setsize = 1024

-- `pty_pipesocket_fn`
unfoldable pub reader_step : Label → Reader → Child → Move
reader_step Label.tests Reader.testing c =
    with_baton c
      λ b. moved (record c { reader = if b.fd_closed then Reader.leaving else Reader.selecting })
reader_step (Label.selects none) Reader.selecting c =
    if leb fd_setsize c.fd then undefined else moved (record c { reader = Reader.testing })
reader_step (Label.selects (some set)) Reader.selecting c =
    if leb fd_setsize c.fd
    then undefined
    else moved (record c { reader = if set then Reader.reading else Reader.testing })
reader_step (Label.reads none) Reader.reading c =
    moved (record c { reader = Reader.allocating none })
reader_step (Label.reads (some [])) Reader.reading c =
    with_baton c λ b.
      moved (record c { reader = Reader.closing; baton = some (record b { fd_closed = true }) })
reader_step (Label.reads (some (x ∷ bytes))) Reader.reading c =
    moved (record c { reader = Reader.allocating (some (x ∷ bytes)) })
reader_step (Label.allocates false) (Reader.allocating size) c =
    moved (record c { reader = Reader.testing })
reader_step (Label.allocates true) (Reader.allocating none) c = undefined
reader_step (Label.allocates true) (Reader.allocating (some bytes)) c =
    moved (record c { reader = Reader.sending bytes })
reader_step Label.sends (Reader.sending bytes) c =
    with_pid c.process c
      λ p. moved (record c { reader = Reader.testing; trace = Event.data_sent bytes ∷ c.trace })
reader_step Label.closes Reader.closing c =
    moved (record c { reader = Reader.hanging_up; trace = Event.closed c.fd ∷ c.trace })
reader_step Label.hangs_up Reader.hanging_up c =
    with_baton c λ b.
      moved (record c { reader = Reader.leaving; trace = Event.killed b.pid (pos 1) ∷ c.trace })
reader_step Label.leaves Reader.leaving c =
    moved (record c { reader = Reader.done; reader_async = Async.sent })
reader_step _ _ c = blocked

abbrev reported : Wait → Baton → Baton
reported (Wait.exited n) b = record b { exit_code = n }
reported (Wait.signalled n) b = record b { signal_code = n }
reported _ b = b

-- `pty_waitpid`. A failing `waitpid` leaves the status uninitialised, which is then read.
unfoldable pub waiter_step : Label → Waiter → Child → Move
waiter_step (Label.waits Wait.interrupted) Waiter.waiting c = with_baton c λ b. moved c
waiter_step (Label.waits Wait.failed) Waiter.waiting c = undefined
waiter_step (Label.waits w) Waiter.waiting c =
    with_baton c λ b. moved (record c { waiter = Waiter.reporting; baton = some (reported w b) })
waiter_step Label.reports Waiter.reporting c = with_baton c λ b. with_pid b.process c λ p.
    moved (record c {
      waiter = Waiter.freeing;
      trace = Event.exit_sent b.exit_code b.signal_code ∷ c.trace;
    })
waiter_step Label.frees Waiter.freeing c = with_baton c λ b.
    free_pid b.process c
      (record c { waiter = Waiter.notifying; baton = some (record b { process = none }) })
waiter_step Label.notifies Waiter.notifying c =
    with_baton c λ b. moved (record c { waiter = Waiter.erasing; waiter_async = Async.sent })
waiter_step Label.erases Waiter.erasing c =
    with_baton c
      λ b. moved (record c { waiter = Waiter.done; trace = Event.erased b.pid ∷ c.trace })
waiter_step _ _ c = blocked

-- The callbacks, for the handles that wait for them.
unfoldable pub loop_step : Label → Child → Move
loop_step Label.after_waitpid c = elim (c.waiter_async) [
  | Async.sent ↦ moved (record c { waiter_async = Async.closing })
  | _ ↦ blocked
]
loop_step Label.after_pipesocket c = elim (c.reader_async) [
  | Async.sent ↦ moved (record c { reader_async = Async.closing })
  | _ ↦ blocked
]
loop_step Label.after_close c = elim (c.waiter_async) [
  | Async.closing ↦ moved (record c { waiter_async = Async.closed; baton = none })
  | _ ↦ blocked
]
loop_step Label.after_close_pipesocket c = elim (c.reader_async) [
  | Async.closing ↦ elim (free_pid c.process c (record c { process = none })) [
    | moved c' ↦ moved (record c' {
      reader_async = Async.closed;
      process = none;
      trace = Event.resource_released ∷ Event.mutex_destroyed ∷ c'.trace;
    })
    | other ↦ other
  ]
  | _ ↦ blocked
]
loop_step _ c = blocked

pub data Side : Type 0 where
  reads_ waits_ loops_ : Side

abbrev pub side : Label → Side
side Label.tests = reads_
side (Label.selects _) = reads_
side (Label.reads _) = reads_
side (Label.allocates _) = reads_
side Label.sends = reads_
side Label.closes = reads_
side Label.hangs_up = reads_
side Label.leaves = reads_
side Label.after_waitpid = loops_
side Label.after_pipesocket = loops_
side Label.after_close = loops_
side Label.after_close_pipesocket = loops_
side _ = waits_

-- One step of the child's threads.
unfoldable pub step : Label → Child → Move
unfolding reader_step waiter_step loop_step
step l c = elim (side l) [
  | reads_ ↦ reader_step l c.reader c
  | waits_ ↦ waiter_step l c.waiter c
  | loops_ ↦ loop_step l c
]
