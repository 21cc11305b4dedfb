-- ===== src/Tests/Threads.antt =====
-- A child that writes a byte and exits.
use ex_pty.Prelude.{◌≡◌, ◌↔◌, refl, true, false, none, some, List, [], ◌∷◌, ◌++◌, pos}
use ex_pty.Unix.Threads.Defs.{
  Event, Reader, Waiter, Async, Child, Label, Wait, undefined, reader_step, waiter_step, step,
}
use ex_pty.Unix.Threads.Runs.{started, Run}
use ex_pty.Unix.Threads.Delivery.{
  delivered, received, pending, closes, signals, once, has_closed, has_hung_up, Run-delivers,
  Run-closes,
}
use ex_pty.Unix.Threads.Status.{exits, erased, status, has_reported, has_erased, Run-reports}
use ex_pty.Unix.Threads.Faults.{faulty, Run-faulty}
use ex_pty.Unix.Threads.Quiet.{exposed, Quiet-exposed}

abbrev labels : List Label
labels =
    Label.frees
    ∷ Label.reports
    ∷ Label.waits (Wait.exited (pos 2))
    ∷ Label.sends
    ∷ Label.allocates true
    ∷ Label.reads (some (104 ∷ []))
    ∷ Label.selects (some true)
    ∷ Label.tests
    ∷ []

abbrev child : Child
child = record {
  reader = Reader.testing;
  waiter = Waiter.notifying;
  fd = 10;
  baton = some (record {
    process = none;
    fd_closed = false;
    exit_code = pos 2;
    signal_code = pos 0;
    pid = 4242;
  });
  process = some 3;
  reader_async = Async.idle;
  waiter_async = Async.idle;
  trace = Event.freed 3 ∷ Event.exit_sent (pos 2) (pos 0) ∷ Event.data_sent (104 ∷ []) ∷ [];
}

run : Run labels (started 10 3 4242) child
unfolding step reader_step waiter_step
run =
    Run.go _
      (Run.go _
        (Run.go _
          (Run.go _ (Run.go _ (Run.go _ (Run.go _ (Run.go _ Run.stay refl) refl) refl) refl) refl)
          refl)
        refl)
      refl

Run-delivers_example : pending child.reader ++ delivered child.trace ≡ received labels
Run-delivers_example = Run-delivers 10 3 4242 run tt

Run-closes_example :
    (closes child.trace ≡ once (has_closed child.reader) 10)
    × (signals child.trace ≡ once (has_hung_up child.reader) (4242, pos 1))
Run-closes_example = Run-closes 10 3 4242 run

Run-reports_example :
    (exits child.trace ≡ once (has_reported child.waiter) (status labels))
    × (erased child.trace ≡ once (has_erased child.waiter) 4242)
Run-reports_example = Run-reports 10 3 4242 run

Run-faulty_example : (step Label.tests child ≡ undefined) ↔ (
    faulty Label.tests child.reader child.waiter child.reader_async child.waiter_async child.fd
    ≡ true)
Run-faulty_example = Run-faulty 10 3 4242 Label.tests run

Quiet-exposed_example :
    (step Label.tests child ≡ undefined)
    ↔ (exposed Label.tests child.reader child.waiter child.fd ≡ true)
Quiet-exposed_example = Quiet-exposed 10 3 4242 Label.tests run tt
