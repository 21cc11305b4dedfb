-- ===== src/Win/Conpty/Threads/Exits.antt =====
-- The exit message of a handle of c_src/win/conpty.cc, over all runs. Nothing in the sources runs the event
-- loop that would call `OnProcessExit`.
use ex_pty.Prelude.{
  ℕ, ◌≡◌, ◌≢◌, refl, Bool, true, false, List, [], ◌∷◌, ◌++◌, ℤ, arith, ◌∙◌, sym, ap, append_assoc,
  append-nil,
}
use ex_pty.Win.Conpty.Threads.Defs.{
  Event, Reader, Caller, Exit, Shell, Label, moved, undefined, writer_step, reader_step,
  caller_step, exit_step, step, started, Run,
}
use ex_pty.Win.Conpty.Threads.Faults.{faulty, conpty_Run-faulty, Held, Run-Held}

-- The exit messages, the newest first.
abbrev pub messages : List Event → List ℤ
messages [] = []
messages (Event.exit_sent code ∷ h) = code ∷ messages h
messages (_ ∷ h) = messages h

-- The exit codes with which the event loop has called `OnProcessExit`.
abbrev pub exit_codes : List Label → List ℤ
exit_codes [] = []
exit_codes (Label.exits code ∷ ls) = code ∷ exit_codes ls
exit_codes (_ ∷ ls) = exit_codes ls

-- The code that is about to be sent.
abbrev pub unsent : Exit → List ℤ
unsent (Exit.reporting code) = code ∷ []
unsent _ = []

abbrev told : Shell → List ℤ
told c = unsent c.exit ++ messages c.trace

abbrev adds : Label → List ℤ
adds (Label.exits code) = code ∷ []
adds _ = []

step-told : (l : Label) (c c' : Shell) → step l c ≡ moved c' → told c' ≡ adds l ++ told c
unfolding step writer_step reader_step caller_step exit_step
step-told l c c' h = ground arith

exit_codes-adds : (l : Label) (ls : List Label) → adds l ++ exit_codes ls ≡ exit_codes (l ∷ ls)
exit_codes-adds l ls = ground arith

Run-told : {ls : List Label} {c c' : Shell} → Run ls c c' → told c' ≡ exit_codes ls ++ told c
Run-told Run.stay = refl
Run-told (Run.go {labels} {c} {c'} {c''} l r s) =
    step-told l c' c'' s
    ∙ ap (◌++◌ (adds l)) (Run-told r)
    ∙ sym (append_assoc (adds l) (exit_codes labels) (told c))
    ∙ ap (λ xs. xs ++ told c) (exit_codes-adds l labels)

-- In every run at a handle the exit messages are the codes with which the event loop has called
-- `OnProcessExit`, but for one that is about to be sent.
pub conpty_Run-exits :
    (p : ℕ) {ls : List Label} {c : Shell}
    → Run ls (started p) c
    → unsent c.exit ++ messages c.trace ≡ exit_codes ls
conpty_Run-exits p {ls} r = Run-told r ∙ append-nil (exit_codes ls)

-- No step is a call of `OnProcessExit`.
abbrev pub Quiet : List Label → Type 0
Quiet [] = Unit {0}
Quiet (Label.exits code ∷ ls) = ⊥
Quiet (_ ∷ ls) = Quiet ls

Quiet-exit_codes : (ls : List Label) → Quiet ls → exit_codes ls ≡ []
Quiet-exit_codes [] q = refl
Quiet-exit_codes (l ∷ ls) q = ground (arith, Quiet-exit_codes ls)

abbrev is_early : Exit → Bool
is_early Exit.running = true
is_early Exit.sent = true
is_early _ = false

Quiet-first : (l : Label) (ls : List Label) → Quiet (l ∷ ls) → Quiet (l ∷ []) × Quiet ls
Quiet-first l ls h = ground arith

step-early :
    (l : Label) (c c' : Shell)
    → Quiet (l ∷ [])
    → is_early c.exit ≡ true
    → step l c ≡ moved c'
    → is_early c'.exit ≡ true
unfolding step writer_step reader_step caller_step exit_step
step-early l c c' q i h = ground arith

Run-early :
    {ls : List Label} {c c' : Shell}
    → Run ls c c'
    → Quiet ls
    → is_early c.exit ≡ true
    → is_early c'.exit ≡ true
Run-early Run.stay q i = i
Run-early (Run.go {labels} {c} {c'} {c''} l r s) q i =
    let (first, rest) = Quiet-first l labels q in step-early l c' c'' first (Run-early r rest i) s

faulty-early :
    (l : Label) (r : Reader) (k : Caller) (e : Exit) → is_early e ≡ true → faulty l r k e ≡ false
faulty-early l r k e h = ground arith

unsent-early : (e : Exit) → is_early e ≡ true → unsent e ≡ []
unsent-early e h = ground arith

-- As long as nothing runs the event loop, no exit message is sent; and no step, of steps that are taken one
-- at a time, uses an Erlang pid that was freed, a mutex that was destroyed or a pipe that was never opened.
pub conpty_Quiet-safe :
    (p : ℕ) (l : Label) {ls : List Label} {c : Shell}
    → Run ls (started p) c
    → Quiet ls
    → (messages c.trace ≡ []) × (step l c ≢ undefined)
conpty_Quiet-safe p l {ls} {c} r q =
    let early = Run-early r q refl in
    let none_told = conpty_Run-exits p r ∙ Quiet-exit_codes ls q in
    (
      rw (unsent-early c.exit early) at none_told,
      λ u.
          let bad = (conpty_Run-faulty p l r).0 u in
          absurd (ground (arith, faulty-early l c.reader c.caller c.exit early)),
    )

-- The end of a process, and `OnProcessExit` up to its message.
abbrev pub ending : ℤ → List Label → List Label
ending code ls = Label.reports ∷ Label.exits code ∷ Label.fires ∷ ls

-- No message was sent while the process runs, or `OnProcessExit` has not been called.
abbrev Silent : Exit → List ℤ → Type 0
Silent Exit.running sent = sent ≡ []
Silent Exit.sent sent = sent ≡ []
Silent (Exit.reporting code) sent = sent ≡ []
Silent _ sent = Unit {0}

step-Silent :
    (l : Label) (c c' : Shell)
    → Silent c.exit (messages c.trace)
    → step l c ≡ moved c'
    → Silent c'.exit (messages c'.trace)
unfolding step writer_step reader_step caller_step exit_step
step-Silent l c c' i h = ground arith

Run-Silent :
    {ls : List Label} {c c' : Shell}
    → Run ls c c'
    → Silent c.exit (messages c.trace)
    → Silent c'.exit (messages c'.trace)
Run-Silent Run.stay i = i
Run-Silent (Run.go {labels} {c} {c'} {c''} l r s) i = step-Silent l c' c'' (Run-Silent r i) s

-- The states of the three steps.
abbrev at_exit : Exit → Shell → Shell
at_exit e c = record c { exit = e }

abbrev told_exit : ℤ → Shell → Shell
told_exit code c = record c { exit = Exit.destroying; trace = Event.exit_sent code ∷ c.trace }

fires-moved : (c : Shell) → c.exit ≡ Exit.running → step Label.fires c ≡ moved (at_exit Exit.sent c)
unfolding step writer_step reader_step caller_step exit_step
fires-moved c h = ground arith

exits-moved :
    (code : ℤ) (c : Shell)
    → step (Label.exits code) (at_exit Exit.sent c) ≡ moved (at_exit (Exit.reporting code) c)
unfolding step writer_step reader_step caller_step exit_step
exits-moved code c = refl

reports-moved :
    (p : ℕ) (code : ℤ) (c : Shell)
    → Held p c
    → c.exit ≡ Exit.running
    → step Label.reports (at_exit (Exit.reporting code) c) ≡ moved (told_exit code c)
unfolding step writer_step reader_step caller_step exit_step
reports-moved p code c i h = ground arith

-- From every state in which the process still runs, the next three steps of the process and of an event
-- loop that is run tell its exit code, as the only exit message.
pub Run-ending :
    (p : ℕ) (code : ℤ) {ls : List Label} {c : Shell}
    → Run ls (started p) c
    → c.exit ≡ Exit.running
    → (c' : Shell) × Run (ending code ls) (started p) c' × (messages c'.trace ≡ code ∷ [])
Run-ending p code {ls} {c} r h =
    let held = Run-Held p r (refl, refl, refl, tt, refl, refl) in
    let silent = rw h at (Run-Silent r refl) in
    (
      told_exit code c,
      Run.go Label.reports
          (Run.go (Label.exits code) (Run.go Label.fires r (fires-moved c h)) (exits-moved code c))
          (reports-moved p code c held h),
      ap (◌∷◌ code) silent,
    )
