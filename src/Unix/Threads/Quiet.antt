-- ===== src/Unix/Threads/Quiet.antt =====
-- The runs of the threads of c_src/unix/pty.cpp as the sources start them: nothing runs the default
-- event loop, so that no callback is ever called.
use ex_pty.Prelude.{ℕ, ◌≡◌, ◌↔◌, refl, Bool, true, false, none, List, [], ◌∷◌, arith, leb}
use ex_pty.Unix.Threads.Defs.{
  fd_setsize, Reader, Waiter, Async, Child, Label, Wait, moved, undefined, reader_step, waiter_step,
  loop_step, step,
}
use ex_pty.Unix.Threads.Runs.{started, Run}
use ex_pty.Unix.Threads.Faults.{faulty, has_freed, Run-faulty}

-- No step is one of a callback.
abbrev pub Quiet : List Label → Type 0
Quiet [] = Unit {0}
Quiet (Label.after_waitpid ∷ ls) = ⊥
Quiet (Label.after_pipesocket ∷ ls) = ⊥
Quiet (Label.after_close ∷ ls) = ⊥
Quiet (Label.after_close_pipesocket ∷ ls) = ⊥
Quiet (_ ∷ ls) = Quiet ls

-- A handle for which no callback has run.
abbrev is_early : Async → Bool
is_early Async.idle = true
is_early Async.sent = true
is_early _ = false

abbrev Early : Child → Type 0
Early c = (is_early c.reader_async ≡ true) × (is_early c.waiter_async ≡ true)

Quiet-first : (l : Label) (ls : List Label) → Quiet (l ∷ ls) → Quiet (l ∷ []) × Quiet ls
Quiet-first l ls h = ground arith

step-Early : (l : Label) (c c' : Child) → Quiet (l ∷ []) → Early c → step l c ≡ moved c' → Early c'
unfolding step reader_step waiter_step loop_step
step-Early l c c' q i h = ground arith

Run-Early : {ls : List Label} {c c' : Child} → Run ls c c' → Quiet ls → Early c → Early c'
Run-Early Run.stay q i = i
Run-Early (Run.go {labels} {c} {c'} {c''} l r s) q i =
    let (first, rest) = Quiet-first l labels q in step-Early l c' c'' first (Run-Early r rest i) s

-- What may go wrong: to put a descriptor into the set of `select` that it does not hold, to send data behind the `enif_free` of the waiting thread, to make a binary of
-- SIZE_MAX bytes where a `read` has failed, and to read the status of a failed wait.
abbrev pub exposed : Label → Reader → Waiter → ℕ → Bool
exposed (Label.selects _) Reader.selecting w fd = leb fd_setsize fd
exposed Label.sends (Reader.sending bytes) w fd = has_freed w
exposed (Label.allocates true) (Reader.allocating none) w fd = true
exposed (Label.waits Wait.failed) r Waiter.waiting fd = true
exposed _ r w fd = false

faulty-exposed :
    (l : Label) (c : Child)
    → Quiet (l ∷ [])
    → Early c
    → faulty l c.reader c.waiter c.reader_async c.waiter_async c.fd
      ≡ exposed l c.reader c.waiter c.fd
faulty-exposed l c q i = ground arith

-- In every state that the threads reach without callbacks and by steps that are taken one at a time, a
-- step of a thread is undefined behaviour, data races apart, exactly if it puts a descriptor of 1024 or
-- more into the set of `select`, sends data behind the `enif_free` of the waiting thread, makes the binary
-- of SIZE_MAX bytes of a failed `read`, or reads the status of a failed wait.
pub Quiet-exposed :
    (fd p pid : ℕ) (l : Label) {ls : List Label} {c : Child}
    → Run ls (started fd p pid) c
    → Quiet (l ∷ ls)
    → (step l c ≡ undefined) ↔ (exposed l c.reader c.waiter c.fd ≡ true)
Quiet-exposed fd p pid l {ls} {c} r q =
    let (first, rest) = Quiet-first l ls q in
    rw (← faulty-exposed l c first (Run-Early r rest (refl, refl))) (Run-faulty fd p pid l r)
