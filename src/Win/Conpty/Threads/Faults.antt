-- ===== src/Win/Conpty/Threads/Faults.antt =====
-- Which accesses to a handle of c_src/win/conpty.cc use what is no more or not yet there, over all runs.
use ex_pty.Prelude.{
  ℕ, ◌≡◌, ◌↔◌, refl, Bool, true, false, not, ◌||◌, Option, none, some, List, [], ◌∷◌, arith,
}
use ex_pty.Win.Conpty.Threads.Defs.{
  Writer, Reader, Caller, Exit, Shell, Label, moved, undefined, is_freed, writer_step, reader_step,
  caller_step, exit_step, step, started, Run,
}

-- `OnProcessExit` has destroyed the mutex, has freed the Erlang pid.
abbrev pub has_freed : Exit → Bool
has_freed Exit.clearing = true
has_freed Exit.done = true
has_freed _ = false

abbrev pub has_destroyed : Exit → Bool
has_destroyed Exit.freeing = true
has_destroyed e = has_freed e

-- What is undefined: to send data behind the `enif_free` of `OnProcessExit`, and to lock or unlock the
-- mutex behind its `uv_mutex_destroy`.
abbrev pub faulty : Label → Reader → Caller → Exit → Bool
faulty Label.sends (Reader.sending pipe bytes) k e = has_freed e
faulty Label.locks r (Caller.locking text) e = has_destroyed e
faulty Label.unlocks r Caller.unlocking e = has_destroyed e
faulty _ r k e = false

abbrev pid_at : ℕ → Exit → Option ℕ
pid_at p Exit.done = none
pid_at p _ = some p

abbrev is_done : Writer → Bool
is_done Writer.done = true
is_done _ = false

abbrev is_away : Caller → Bool
is_away Caller.away = true
is_away _ = false

-- The writing end is there from its assignment on.
abbrev Opened : Writer → Option ℕ → Type 0
Opened w (some pipe) = Unit {0}
Opened Writer.enabling none = ⊥
Opened Writer.done none = ⊥
Opened _ none = Unit {0}

-- Who holds what.
abbrev pub Held : ℕ → Shell → Type 0
Held p c =
    (c.process ≡ pid_at p c.exit)
    × (is_freed p c.trace ≡ has_freed c.exit)
    × (c.mutex ≡ not (has_destroyed c.exit))
    × Opened c.writer c.real_in
    × (c.write_ready ≡ is_done c.writer)
    × (is_away c.caller || c.write_ready ≡ true)

step-Held : (p : ℕ) (l : Label) (c c' : Shell) → Held p c → step l c ≡ moved c' → Held p c'
unfolding step writer_step reader_step caller_step exit_step
step-Held p Label.checks c c' i h = ground arith
step-Held p (Label.opens none) c c' i h = ground arith
step-Held p (Label.opens (some pipe)) c c' i h = ground arith
step-Held p Label.stores c c' i h = ground arith
step-Held p Label.enables c c' i h = ground arith
step-Held p (Label.opens_reading none) c c' i h = ground arith
step-Held p (Label.opens_reading (some pipe)) c c' i h = ground arith
step-Held p (Label.reads []) c c' i h = ground arith
step-Held p (Label.reads (b ∷ bytes)) c c' i h = ground arith
step-Held p (Label.allocates false) c c' i h = ground arith
step-Held p (Label.allocates true) c c' i h = ground arith
step-Held p Label.sends c c' i h = ground arith
step-Held p (Label.calls text) c c' i h = ground arith
step-Held p Label.locks c c' i h = ground arith
step-Held p (Label.writes none) c c' i h = ground arith
step-Held p (Label.writes (some n)) c c' i h = ground arith
step-Held p Label.unlocks c c' i h = ground arith
step-Held p Label.fires c c' i h = ground arith
step-Held p (Label.exits code) c c' i h = ground arith
step-Held p Label.reports c c' i h = ground arith
step-Held p Label.destroys c c' i h = ground arith
step-Held p Label.frees c c' i h = ground arith
step-Held p Label.clears c c' i h = ground arith

faulty-undefined :
    (p : ℕ) (l : Label) (c : Shell)
    → Held p c
    → (step l c ≡ undefined) ↔ (faulty l c.reader c.caller c.exit ≡ true)
unfolding step writer_step reader_step caller_step exit_step
faulty-undefined p Label.checks c i = ground arith
faulty-undefined p (Label.opens none) c i = ground arith
faulty-undefined p (Label.opens (some pipe)) c i = ground arith
faulty-undefined p Label.stores c i = ground arith
faulty-undefined p Label.enables c i = ground arith
faulty-undefined p (Label.opens_reading none) c i = ground arith
faulty-undefined p (Label.opens_reading (some pipe)) c i = ground arith
faulty-undefined p (Label.reads []) c i = ground arith
faulty-undefined p (Label.reads (b ∷ bytes)) c i = ground arith
faulty-undefined p (Label.allocates false) c i = ground arith
faulty-undefined p (Label.allocates true) c i = ground arith
faulty-undefined p Label.sends c i = ground arith
faulty-undefined p (Label.calls text) c i = ground arith
faulty-undefined p Label.locks c i = ground arith
faulty-undefined p (Label.writes none) c i = ground arith
faulty-undefined p (Label.writes (some n)) c i = ground arith
faulty-undefined p Label.unlocks c i = ground arith
faulty-undefined p Label.fires c i = ground arith
faulty-undefined p (Label.exits code) c i = ground arith
faulty-undefined p Label.reports c i = ground arith
faulty-undefined p Label.destroys c i = ground arith
faulty-undefined p Label.frees c i = ground arith
faulty-undefined p Label.clears c i = ground arith

pub Run-Held : (p : ℕ) {ls : List Label} {c c' : Shell} → Run ls c c' → Held p c → Held p c'
Run-Held p Run.stay i = i
Run-Held p (Run.go {labels} {c} {c'} {c''} l r s) i = step-Held p l c' c'' (Run-Held p r i) s

-- In every state that is reached at a handle by steps that are taken one at a time, a step uses an Erlang
-- pid that was freed, a mutex that was destroyed or a pipe that was never opened exactly if it sends data
-- behind the `enif_free` of `OnProcessExit`, or locks or unlocks the mutex behind its destruction. Data
-- races are not told by this.
pub conpty_Run-faulty :
    (p : ℕ) (l : Label) {ls : List Label} {c : Shell}
    → Run ls (started p) c
    → (step l c ≡ undefined) ↔ (faulty l c.reader c.caller c.exit ≡ true)
conpty_Run-faulty p l {ls} {c} r =
    faulty-undefined p l c (Run-Held p r (refl, refl, refl, tt, refl, refl))
