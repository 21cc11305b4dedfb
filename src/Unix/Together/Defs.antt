-- ===== src/Unix/Together/Defs.antt =====
-- `pty_pipesocket::write` of c_src/unix/pty.cpp as steps, one for each access to what it shares with the
-- reading thread of the same resource and with the other calls of `write` for it.
-- Steps are taken one at a time; that `fd_closed` is read here while the reading thread may store it,
-- a data race, is not looked at.
use ex_pty.Prelude.{
  true, false, ltb, ℕ, suc, ◌+◌, ◌-◌, ◌%◌, Bool, true, Option, none, some, List, [], ◌∷◌, Bytes, ℤ,
  pos, ◌==◌, if◌then◌else◌, length, take, ◌≡◌,
}
use ex_pty.Unix.Sys.{update}
use ex_pty.Unix.Threads.Defs.{Event, Child, moved, undefined, blocked, Label, step}
use ex_pty.Unix.Threads.Runs.{started}
use ex_pty.Unix.Write.Defs.{Progress, size_max, chunk, advance}

-- Where a call is: before its first test of `fd_closed`, before `uv_mutex_lock`, at the test in the loop,
-- before `::write`, before `uv_mutex_unlock`, or at its end.
pub data Place : Type 0 where
  entering locking checking writing unlocking done : Place

pub record Writer : Type 0 where
  pub place : Place
  pub text : Bytes
  pub progress : Progress

-- What a call of the system has taken, for which call of `write`, whether `fd_closed` was set by then, and
-- whether the descriptor was closed, so that its number may be somebody else's.
pub record Taken : Type 0 where
  pub by : ℕ
  pub bytes : Bytes
  pub late : Bool
  pub gone : Bool

-- The child with its threads, the calls by their numbers, and who holds the mutex of the resource.
pub record Shared : Type 0 where
  pub child : Child
  pub writers : ℕ → Writer
  pub holder : Option ℕ
  pub trace : List Taken

-- A step of the threads, or of the call of a number; `writes` has what `::write` returns.
pub data Action : Type 0 where
  enters locks checks unlocks : Action
  writes : ℤ → Action

pub data Turn : Type 0 where
  thread : Label → Turn
  writer : ℕ → Action → Turn

-- A turn cannot be taken now, uses a baton or a mutex that is gone or is undefined in the threads, or leads
-- on.
pub data Next : Type 0 where
  stuck fault : Next
  next : Shared → Next

-- `baton->fd_closed`; a baton that was deleted counts as closed.
abbrev pub is_closed : Child → Bool
is_closed c = elim (c.baton) [ none ↦ true | some b ↦ b.fd_closed ]

abbrev pub is_gone : List Event → Bool
is_gone [] = false
is_gone (Event.closed fd ∷ h) = true
is_gone (_ ∷ h) = is_gone h

abbrev pub is_destroyed : List Event → Bool
is_destroyed [] = false
is_destroyed (Event.mutex_destroyed ∷ h) = true
is_destroyed (_ ∷ h) = is_destroyed h

-- The test of `this->baton->fd_closed`.
abbrev test_closed : Shared → (Bool → Next) → Next
test_closed s f = elim (s.child.baton) [ none ↦ fault | some b ↦ f b.fd_closed ]

abbrev pub put : ℕ → Writer → Place → Shared → Shared
put i w place s = record s { writers = update s.writers i (record w { place = place }) }

-- `if (retry-- > 0)`, of which the sleep is no access to what is shared.
abbrev pub retried : Progress → Progress
retried w = record w { retry = (w.retry + size_max - 1) % size_max }

-- Behind a `::write`. It never says that it has taken more than it was given.
unfoldable pub write_step : ℕ → Writer → ℤ → Shared → Next
write_step i w (pos (suc n)) s =
    let progress = advance w.progress (suc n) in
    let place = if progress.bytes_written == length w.text then unlocking else checking in
    let given = chunk w.text w.progress in
    if ltb (length given) (suc n)
    then stuck
    else next (record (put i (record w { progress = progress }) place s) {
      trace =
          record {
            by = i;
            bytes = take (suc n) given;
            late = is_closed s.child;
            gone = is_gone s.child.trace;
          }
          ∷ s.trace;
    })
write_step i w r s = next (put i (record w { progress = retried w.progress }) checking s)

unfoldable pub writer_step : ℕ → Writer → Action → Place → Shared → Next
unfolding write_step
writer_step i w enters entering s =
    test_closed s λ closed. next (put i w (if closed then done else locking) s)
writer_step i w locks locking s = elim (is_destroyed s.child.trace) [
  | true ↦ fault
  | false ↦ elim (s.holder) [
    | none ↦ next (record (put i w checking s) { holder = some i })
    | some j ↦ stuck
  ]
]
writer_step i w checks checking s =
    test_closed s λ closed. next (put i w (if closed then unlocking else writing) s)
writer_step i w (writes r) writing s = write_step i w r s
writer_step i w unlocks unlocking s = elim (is_destroyed s.child.trace) [
  | true ↦ fault
  | false ↦ next (record (put i w done s) { holder = none })
]
writer_step i w a place s = stuck

unfoldable pub turn : Turn → Shared → Next
unfolding writer_step
turn (thread l) s = elim (step l s.child) [
  | blocked ↦ stuck
  | undefined ↦ fault
  | moved c ↦ next (record s { child = c })
]
turn (writer i a) s = writer_step i (s.writers i) a (s.writers i).place s

-- A call at its start.
abbrev pub fresh : Bytes → Writer
fresh text = record {
  place = entering;
  text = text;
  progress = record { bytes_to_write = length text; bytes_written = 0; retry = 3 };
}

-- Calls for texts by their numbers, as many as there may be, at a child that was started.
abbrev pub opened : ℕ → ℕ → ℕ → (ℕ → Bytes) → Shared
opened fd p pid texts = record {
  child = started fd p pid;
  writers = λ i. fresh (texts i);
  holder = none;
  trace = [];
}

-- A run, with its turns in reverse order.
pub data Run : List Turn → Shared → Shared → Type 0 where
  stay : {s : Shared} → Run [] s s
  go :
      {turns : List Turn} {s s' s'' : Shared} (t : Turn)
      → Run turns s s'
      → turn t s' ≡ next s''
      → Run (t ∷ turns) s s''
