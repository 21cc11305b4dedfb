-- ===== src/Tests/Shell.antt =====
-- A handle whose console gives a byte, and a call that writes one.
use ex_pty.Prelude.{◌≡◌, ◌≢◌, ◌↔◌, refl, true, false, ◌&&◌, ◌||◌, some, List, [], ◌∷◌, ◌++◌}
use ex_pty.Win.Conpty.Threads.Defs.{
  Event, Writer, Reader, Caller, Exit, Shell, Label, undefined, writer_step, reader_step,
  caller_step, exit_step, step, started, Run,
}
use ex_pty.Win.Conpty.Threads.Delivery.{received, pending, delivered, conpty_Run-delivers}
use ex_pty.Win.Conpty.Threads.Faults.{faulty, conpty_Run-faulty}
use ex_pty.Win.Conpty.Threads.Writing.{has_failed, is_inside, Run-locked}
use ex_pty.Win.Conpty.Threads.Exits.{messages, conpty_Quiet-safe}

abbrev labels : List Label
labels =
    Label.locks
    ∷ Label.calls (100 ∷ [])
    ∷ Label.sends
    ∷ Label.allocates true
    ∷ Label.reads (104 ∷ [])
    ∷ Label.opens_reading (some 30)
    ∷ Label.enables
    ∷ Label.stores
    ∷ Label.opens (some 60)
    ∷ Label.checks
    ∷ []

abbrev shell : Shell
shell = record {
  writer = Writer.done;
  reader = Reader.reading 30;
  caller = Caller.writing (100 ∷ []);
  exit = Exit.running;
  real_in = some 60;
  write_ready = true;
  mutex = true;
  locked = true;
  process = some 3;
  trace = Event.data_sent (104 ∷ []) ∷ [];
}

run : Run labels (started 3) shell
unfolding step writer_step reader_step caller_step exit_step
run =
    Run.go _
      (Run.go _
        (Run.go _
          (Run.go _
            (Run.go _
              (Run.go _ (Run.go _ (Run.go _ (Run.go _ (Run.go _ Run.stay refl) refl) refl) refl)
                refl)
              refl)
            refl)
          refl)
        refl)
      refl

conpty_Run-delivers_example : pending shell.reader ++ delivered shell.trace ≡ received labels
conpty_Run-delivers_example = conpty_Run-delivers 3 run tt

conpty_Run-faulty_example :
    (step Label.unlocks shell ≡ undefined)
    ↔ (faulty Label.unlocks shell.reader shell.caller shell.exit ≡ true)
conpty_Run-faulty_example = conpty_Run-faulty 3 Label.unlocks run

Run-locked_example :
    (shell.locked ≡ (has_failed labels || is_inside shell.caller))
    × (has_failed labels && is_inside shell.caller ≡ false)
Run-locked_example = Run-locked 3 run

conpty_Quiet-safe_example : (messages shell.trace ≡ []) × (step Label.sends shell ≢ undefined)
conpty_Quiet-safe_example = conpty_Quiet-safe 3 Label.sends run tt
