-- ===== src/Unix/Threads/Faults.antt =====
-- Which accesses of the threads and callbacks of c_src/unix/pty.cpp are undefined, over all runs.
use ex_pty.Prelude.{
  ℕ, ◌≡◌, ◌↔◌, refl, Bool, true, false, ◌&&◌, ◌||◌, leb, Option, none, some, List, [], ◌∷◌, arith,
}
use ex_pty.Unix.Sys.{Baton}
use ex_pty.Unix.Threads.Defs.{
  fd_setsize, Reader, Waiter, Async, Child, Label, Wait, moved, undefined, is_freed, reader_step,
  waiter_step, loop_step, step,
}
use ex_pty.Unix.Threads.Runs.{started, Run}

-- The waiting thread has freed the Erlang pid, has woken the event loop.
abbrev pub has_freed : Waiter → Bool
has_freed Waiter.waiting = false
has_freed Waiter.reporting = false
has_freed Waiter.freeing = false
has_freed _ = true

abbrev has_notified : Waiter → Bool
has_notified Waiter.erasing = true
has_notified Waiter.done = true
has_notified _ = false

abbrev is_done : Reader → Bool
is_done Reader.done = true
is_done _ = false

abbrev is_idle : Async → Bool
is_idle Async.idle = true
is_idle _ = false

-- The callback of a handle has run to its end, is next to run.
abbrev pub is_over : Async → Bool
is_over Async.closed = true
is_over _ = false

abbrev is_next : Async → Bool
is_next Async.closing = true
is_next _ = false

-- What is undefined: to put a descriptor into the set of `select` that it does not hold; to send data behind the `enif_free` of the waiting thread; to make a binary of
-- SIZE_MAX bytes; to read the status of a failed wait; whatever reads the baton behind `delete`; to
-- report or free behind the `enif_free` of the callback; and that `enif_free` behind the thread's.
abbrev pub faulty : Label → Reader → Waiter → (reader_async waiter_async : Async) → ℕ → Bool
faulty Label.tests Reader.testing w ra wa fd = is_over wa
faulty (Label.selects _) Reader.selecting w ra wa fd = leb fd_setsize fd
faulty (Label.reads (some [])) Reader.reading w ra wa fd = is_over wa
faulty (Label.allocates true) (Reader.allocating none) w ra wa fd = true
faulty Label.sends (Reader.sending bytes) w ra wa fd = has_freed w
faulty Label.hangs_up Reader.hanging_up w ra wa fd = is_over wa
faulty (Label.waits Wait.failed) r Waiter.waiting ra wa fd = true
faulty Label.reports r Waiter.reporting ra wa fd = is_over ra
faulty Label.frees r Waiter.freeing ra wa fd = is_over ra
faulty Label.erases r Waiter.erasing ra wa fd = is_over wa
faulty Label.after_close_pipesocket r w ra wa fd = is_next ra && has_freed w
faulty _ r w ra wa fd = false

abbrev kept : ℕ → Bool → Option ℕ
kept p true = none
kept p false = some p

abbrev Owns : ℕ → Waiter → Bool → Option Baton → Type 0
Owns p w over none = over ≡ true
Owns p w over (some b) = (over ≡ false) × (b.process ≡ kept p (has_freed w))

-- Who holds the Erlang pid and the baton.
abbrev Held : ℕ → Child → Type 0
Held p c =
    Owns p c.waiter (is_over c.waiter_async) c.baton
    × (c.process ≡ kept p (is_over c.reader_async))
    × (is_freed p c.trace ≡ (has_freed c.waiter || is_over c.reader_async))
    × (is_idle c.waiter_async || has_notified c.waiter ≡ true)
    × (is_idle c.reader_async || is_done c.reader ≡ true)

step-Held : (p : ℕ) (l : Label) (c c' : Child) → Held p c → step l c ≡ moved c' → Held p c'
unfolding step reader_step waiter_step loop_step
step-Held p Label.tests c c' i h = ground arith
step-Held p (Label.selects none) c c' i h = ground arith
step-Held p (Label.selects (some b)) c c' i h = ground arith
step-Held p (Label.reads none) c c' i h = ground arith
step-Held p (Label.reads (some [])) c c' i h = ground arith
step-Held p (Label.reads (some (x ∷ bytes))) c c' i h = ground arith
step-Held p (Label.allocates false) c c' i h = ground arith
step-Held p (Label.allocates true) c c' i h = ground arith
step-Held p Label.sends c c' i h = ground arith
step-Held p Label.closes c c' i h = ground arith
step-Held p Label.hangs_up c c' i h = ground arith
step-Held p Label.leaves c c' i h = ground arith
step-Held p (Label.waits Wait.interrupted) c c' i h = ground arith
step-Held p (Label.waits Wait.failed) c c' i h = ground arith
step-Held p (Label.waits (Wait.exited n)) c c' i h = ground arith
step-Held p (Label.waits (Wait.signalled n)) c c' i h = ground arith
step-Held p Label.reports c c' i h = ground arith
step-Held p Label.frees c c' i h = ground arith
step-Held p Label.notifies c c' i h = ground arith
step-Held p Label.erases c c' i h = ground arith
step-Held p Label.after_waitpid c c' i h = ground arith
step-Held p Label.after_pipesocket c c' i h = ground arith
step-Held p Label.after_close c c' i h = ground arith
step-Held p Label.after_close_pipesocket c c' i h = ground arith

faulty-undefined :
    (p : ℕ) (l : Label) (c : Child)
    → Held p c
    → (step l c ≡ undefined)
      ↔ (faulty l c.reader c.waiter c.reader_async c.waiter_async c.fd ≡ true)
unfolding step reader_step waiter_step loop_step
faulty-undefined p Label.tests c i = ground arith
faulty-undefined p (Label.selects none) c i = ground arith
faulty-undefined p (Label.selects (some b)) c i = ground arith
faulty-undefined p (Label.reads none) c i = ground arith
faulty-undefined p (Label.reads (some [])) c i = ground arith
faulty-undefined p (Label.reads (some (x ∷ bytes))) c i = ground arith
faulty-undefined p (Label.allocates false) c i = ground arith
faulty-undefined p (Label.allocates true) c i = ground arith
faulty-undefined p Label.sends c i = ground arith
faulty-undefined p Label.closes c i = ground arith
faulty-undefined p Label.hangs_up c i = ground arith
faulty-undefined p Label.leaves c i = ground arith
faulty-undefined p (Label.waits Wait.interrupted) c i = ground arith
faulty-undefined p (Label.waits Wait.failed) c i = ground arith
faulty-undefined p (Label.waits (Wait.exited n)) c i = ground arith
faulty-undefined p (Label.waits (Wait.signalled n)) c i = ground arith
faulty-undefined p Label.reports c i = ground arith
faulty-undefined p Label.frees c i = ground arith
faulty-undefined p Label.notifies c i = ground arith
faulty-undefined p Label.erases c i = ground arith
faulty-undefined p Label.after_waitpid c i = ground arith
faulty-undefined p Label.after_pipesocket c i = ground arith
faulty-undefined p Label.after_close c i = ground arith
faulty-undefined p Label.after_close_pipesocket c i = ground arith

Run-Held : (p : ℕ) {ls : List Label} {c c' : Child} → Run ls c c' → Held p c → Held p c'
Run-Held p Run.stay i = i
Run-Held p (Run.go {labels} {c} {c'} {c''} l r s) i = step-Held p l c' c'' (Run-Held p r i) s

-- In every state that the threads can reach by steps that are taken one at a time, a step is undefined
-- behaviour, data races apart, exactly if it is one of those that `faulty` lists for the places where the
-- threads and the callbacks are, and for the descriptor.
pub Run-faulty :
    (fd p pid : ℕ) (l : Label) {ls : List Label} {c : Child}
    → Run ls (started fd p pid) c
    → (step l c ≡ undefined)
      ↔ (faulty l c.reader c.waiter c.reader_async c.waiter_async c.fd ≡ true)
Run-faulty fd p pid l {ls} {c} r =
    faulty-undefined p l c (Run-Held p r ((refl, refl), refl, refl, refl, refl))
