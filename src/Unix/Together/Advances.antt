-- ===== src/Unix/Together/Advances.antt =====
-- Calls of `write` (c_src/unix/pty.cpp) as the sources start the threads: nothing runs the event loop.
use ex_pty.Prelude.{◌≡◌, Bool, true, false, none, some, List, [], ◌∷◌, pos, zero}
use ex_pty.Unix.Threads.Defs.{Async, Child}
use ex_pty.Unix.Threads.Quiet.{Quiet}
use ex_pty.Unix.Together.Defs.{
  Place, entering, locking, checking, writing, unlocking, done, Action, Turn, thread, writer,
  is_destroyed,
}

-- No turn is a callback.
abbrev pub QuietTurns : List Turn → Type 0
QuietTurns [] = Unit {0}
QuietTurns (thread l ∷ ts) = Quiet (l ∷ []) × QuietTurns ts
QuietTurns (writer i a ∷ ts) = QuietTurns ts

abbrev is_early : Async → Bool
is_early Async.idle = true
is_early Async.sent = true
is_early _ = false

abbrev has_baton : Child → Bool
has_baton c = elim (c.baton) [ none ↦ false | some b ↦ true ]

-- The baton and the mutex are there.
abbrev Intact : Child → Type 0
Intact c =
    (is_early c.reader_async ≡ true)
    × (is_early c.waiter_async ≡ true)
    × (has_baton c ≡ true)
    × (is_destroyed c.trace ≡ false)

-- What a call does next; a `::write` may take nothing.
abbrev pub action_at : Place → Action
action_at entering = Action.enters
action_at locking = Action.locks
action_at checking = Action.checks
action_at writing = Action.writes (pos zero)
action_at unlocking = Action.unlocks
action_at done = Action.enters

abbrev pub is_done : Place → Bool
is_done done = true
is_done _ = false

abbrev is_locking : Place → Bool
is_locking locking = true
is_locking _ = false
