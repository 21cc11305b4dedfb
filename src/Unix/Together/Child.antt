-- ===== src/Unix/Together/Child.antt =====
-- The threads of a child (c_src/unix/pty.cpp) beside calls of `write`: they run as they do alone.
use ex_pty.Prelude.{ℕ, ◌≡◌, List, [], ◌∷◌, ◌++◌, Bytes}
use ex_pty.Unix.Threads.Defs.{Label}
use ex_pty.Unix.Threads.Runs.{Run as ChildRun}
use ex_pty.Unix.Threads.Delivery.{HasBinaries, pending, delivered, received, Run-delivers}
use ex_pty.Unix.Together.Defs.{Shared, Turn, thread, writer, opened, Run}
use ex_pty.Unix.Together.Exclusion.{turn-step, turn-child}

-- The steps of the threads.
abbrev pub labels : List Turn → List Label
labels [] = []
labels (thread l ∷ ts) = l ∷ labels ts
labels (writer i a ∷ ts) = labels ts

-- Whatever the calls of `write` do, the threads take a run of their own.
pub Run-labels :
    {ts : List Turn} {s s' : Shared} → Run ts s s' → ChildRun (labels ts) s.child s'.child
Run-labels Run.stay = ChildRun.stay
Run-labels (Run.go {turns} {s} {s'} {s''} (thread l) r e) =
    let (c, moves, same) = turn-step l s' s'' e in rw same (ChildRun.go l (Run-labels r) moves)
Run-labels (Run.go {turns} {s} {s'} {s''} (writer i a) r e) =
    rw (turn-child i a s' s'' e) (Run-labels r)

-- So what was read is sent, in order and each part once, while the terminal is written to.
pub Run-sends :
    (fd p pid : ℕ) (texts : ℕ → Bytes) {ts : List Turn} {s : Shared}
    → Run ts (opened fd p pid texts) s
    → HasBinaries (labels ts)
    → pending s.child.reader ++ delivered s.child.trace ≡ received (labels ts)
Run-sends fd p pid texts r = Run-delivers fd p pid (Run-labels r)
