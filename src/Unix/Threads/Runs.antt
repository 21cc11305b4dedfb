-- ===== src/Unix/Threads/Runs.antt =====
-- Runs of the threads of a child, from the state in which `expty_spawn` (c_src/unix/pty.cpp) starts them.
use ex_pty.Prelude.{ℕ, ◌≡◌, false, some, List, [], ◌∷◌, pos, arith}
use ex_pty.Unix.Sys.{Sys, update}
use ex_pty.Unix.Spawn.Registered.{Registered}
use ex_pty.Unix.Threads.Defs.{Reader, Waiter, Async, Child, Label, moved, step}

-- The threads as they start: `fd` is the master, `p` the Erlang pid, and `pid` the child's.
abbrev pub started : ℕ → ℕ → ℕ → Child
started fd p pid = record {
  reader = Reader.testing;
  waiter = Waiter.waiting;
  fd = fd;
  baton = some (record {
    process = some p;
    fd_closed = false;
    exit_code = pos 0;
    signal_code = pos 0;
    pid = pid;
  });
  process = some p;
  reader_async = Async.idle;
  waiter_async = Async.idle;
  trace = [];
}

-- A run, with its steps in reverse order.
pub data Run : List Label → Child → Child → Type 0 where
  stay : {c : Child} → Run [] c c
  go :
      {labels : List Label} {c c' c'' : Child} (l : Label)
      → Run labels c c'
      → step l c' ≡ moved c''
      → Run (l ∷ labels) c c''

-- The threads start from the baton that `expty_spawn` has made.
pub Registered-started :
    (socket process pid fd : ℕ) (s s' : Sys)
    → Registered socket process pid s s'
    → s'.batons s.next_baton ≡ (started fd process pid).baton
unfolding update
Registered-started socket process pid fd s s' r = rw (r.batons, update) (ground arith)
