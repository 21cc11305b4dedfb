-- ===== src/Unix/Threads/Status.antt =====
-- What `pty_waitpid` (c_src/unix/pty.cpp) reports of a child, and what it does behind the report.
use ex_pty.Prelude.{
  ℕ, ◌≡◌, refl, Bool, true, false, Option, none, some, List, [], ◌∷◌, ℤ, pos, arith,
}
use ex_pty.Unix.Sys.{Baton}
use ex_pty.Unix.Threads.Defs.{
  Event, Waiter, Child, Label, Wait, moved, reader_step, waiter_step, loop_step, step,
}
use ex_pty.Unix.Threads.Delivery.{once}
use ex_pty.Unix.Threads.Runs.{started, Run}

-- The exit messages, and the pids taken out of `processes`, the newest first.
abbrev pub exits : List Event → List (ℤ × ℤ)
exits [] = []
exits (Event.exit_sent code signal ∷ h) = (code, signal) ∷ exits h
exits (_ ∷ h) = exits h

abbrev pub erased : List Event → List ℕ
erased [] = []
erased (Event.erased pid ∷ h) = pid ∷ erased h
erased (_ ∷ h) = erased h

-- The status that the waits of a run gave last: the exit code and the signal.
abbrev pub status : List Label → ℤ × ℤ
status [] = (pos 0, pos 0)
status (Label.waits (Wait.exited n) ∷ ls) = (n, pos 0)
status (Label.waits (Wait.signalled n) ∷ ls) = (pos 0, n)
status (_ ∷ ls) = status ls

abbrev status_of : Label → ℤ × ℤ → ℤ × ℤ
status_of (Label.waits (Wait.exited n)) old = (n, pos 0)
status_of (Label.waits (Wait.signalled n)) old = (pos 0, n)
status_of _ old = old

-- The waiting thread has sent its report, has taken the child out of `processes`.
abbrev pub has_reported : Waiter → Bool
has_reported Waiter.waiting = false
has_reported Waiter.reporting = false
has_reported _ = true

abbrev pub has_erased : Waiter → Bool
has_erased Waiter.done = true
has_erased _ = false

-- The codes of a baton that is there, by where the thread is.
abbrev Codes : Waiter → ℤ × ℤ → ℕ → Option Baton → Type 0
Codes w st pid none = Unit {0}
Codes Waiter.waiting st pid (some b) =
    (b.exit_code ≡ pos 0) × (b.signal_code ≡ pos 0) × (b.pid ≡ pid)
Codes w st pid (some b) = (b.exit_code ≡ st.0) × (b.signal_code ≡ st.1) × (b.pid ≡ pid)

-- What the waiting thread has done, by where it is, for a status `st`.
abbrev Waiting : ℕ → ℤ × ℤ → Child → Type 0
Waiting pid st c =
    Codes c.waiter st pid c.baton
    × (exits c.trace ≡ once (has_reported c.waiter) st)
    × (erased c.trace ≡ once (has_erased c.waiter) pid)

step-Waiting :
    (pid : ℕ) (st : ℤ × ℤ) (l : Label) (c c' : Child)
    → Waiting pid st c
    → step l c ≡ moved c'
    → Waiting pid (status_of l st) c'
unfolding step reader_step waiter_step loop_step
step-Waiting pid st Label.tests c c' i h = ground arith
step-Waiting pid st (Label.selects none) c c' i h = ground arith
step-Waiting pid st (Label.selects (some b)) c c' i h = ground arith
step-Waiting pid st (Label.reads none) c c' i h = ground arith
step-Waiting pid st (Label.reads (some [])) c c' i h = ground arith
step-Waiting pid st (Label.reads (some (x ∷ bytes))) c c' i h = ground arith
step-Waiting pid st (Label.allocates false) c c' i h = ground arith
step-Waiting pid st (Label.allocates true) c c' i h = ground arith
step-Waiting pid st Label.sends c c' i h = ground arith
step-Waiting pid st Label.closes c c' i h = ground arith
step-Waiting pid st Label.hangs_up c c' i h = ground arith
step-Waiting pid st Label.leaves c c' i h = ground arith
step-Waiting pid st (Label.waits Wait.interrupted) c c' i h = ground arith
step-Waiting pid st (Label.waits Wait.failed) c c' i h = ground arith
step-Waiting pid st (Label.waits (Wait.exited n)) c c' i h = ground arith
step-Waiting pid st (Label.waits (Wait.signalled n)) c c' i h = ground arith
step-Waiting pid st Label.reports c c' i h = ground arith
step-Waiting pid st Label.frees c c' i h = ground arith
step-Waiting pid st Label.notifies c c' i h = ground arith
step-Waiting pid st Label.erases c c' i h = ground arith
step-Waiting pid st Label.after_waitpid c c' i h = ground arith
step-Waiting pid st Label.after_pipesocket c c' i h = ground arith
step-Waiting pid st Label.after_close c c' i h = ground arith
step-Waiting pid st Label.after_close_pipesocket c c' i h = ground arith

status-first : (l : Label) (ls : List Label) → status_of l (status ls) ≡ status (l ∷ ls)
status-first l ls = ground arith

Run-Waiting :
    (pid : ℕ) {ls : List Label} {c c' : Child}
    → Run ls c c'
    → Waiting pid (pos 0, pos 0) c
    → Waiting pid (status ls) c'
Run-Waiting pid Run.stay i = i
Run-Waiting pid (Run.go {labels} {c} {c'} {c''} l r s) i =
    rw (← status-first l labels) (step-Waiting pid (status labels) l c' c'' (Run-Waiting pid r i) s)

-- In every run of the threads the status of the child is sent once, behind the wait that gave it, and
-- as it was given: the code with no signal for a child that has exited, and the signal with no code for
-- one that was signalled. Only then the child is taken out of `processes`, once, and no other is.
pub Run-reports :
    (fd p pid : ℕ) {ls : List Label} {c : Child}
    → Run ls (started fd p pid) c
    → (exits c.trace ≡ once (has_reported c.waiter) (status ls))
      × (erased c.trace ≡ once (has_erased c.waiter) pid)
Run-reports fd p pid r = let i = Run-Waiting pid r ((refl, refl, refl), refl, refl) in (i.1, i.2)
