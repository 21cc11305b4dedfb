-- ===== src/Win/Conpty/Threads/Begin.antt =====
-- The handle at which the threads of c_src/win/conpty.cc start is the one that `expty_spawn` has registered.
use ex_pty.Prelude.{◌≡◌, refl, true, some, []}
use ex_pty.Win.Conpty.State.{Baton, State}
use ex_pty.Win.Conpty.Ending.{Registered}
use ex_pty.Win.Conpty.Threads.Defs.{Writer, Reader, Caller, Exit, Shell, started}

-- A handle whose mutex has been made and whose threads are about to start.
abbrev pub begin : Baton → Shell
begin b = record {
  writer = Writer.checking;
  reader = Reader.opening;
  caller = Caller.away;
  exit = Exit.running;
  real_in = b.real_in;
  write_ready = b.write_ready;
  mutex = true;
  locked = b.locked;
  process = some b.process;
  trace = [];
}

-- The threads start at a handle as `expty_spawn` has registered it.
pub Registered-begin : (s s' : State) (b : Baton) → Registered s s' b → begin b ≡ started b.process
Registered-begin s s' b r = rw (r.real_in, r.write_ready, r.locked, begin) refl
