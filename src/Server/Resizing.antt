-- ===== src/Server/Resizing.antt =====
-- A resize from the function of lib/expty.ex to the terminal of c_src/unix/pty.cpp.
use ex_pty.Prelude.{ℕ, ◌^◌, ◌<◌, ◌≡◌, Option, some, List, [], ◌∷◌, Bytes, pos, arith}
use ex_pty.Enif.{Enif}
use ex_pty.Nif.Scalars.{get_int}
use ex_pty.Unix.Sys.{Event as Call, Errno, Kernel, Sys, returned}
use ex_pty.Unix.Handlers.Defs.{fd_of, expty_resize}
use ex_pty.Unix.Handlers.Resize.{answer, expty_resize-applies}
use ex_pty.Server.CommandLine.{Text}
use ex_pty.Server.Terms.{Term}
use ex_pty.Server.Calls.{Os, Event, State, Request, Reply, reply, handle_call, log}
use ex_pty.Server.Client.{call, resize}
use ex_pty.Server.Passed.{IsPassed, argv_of}

-- The arguments of the NIF for the event of a resize.
abbrev pub resize_args : (e : Enif) → (Term → e.Term) → ℕ → ℕ → ℕ → List e.Term
resize_args e pass socket cols rows =
    e.make_resource socket ∷ pass (Term.integer (pos cols)) ∷ pass (Term.integer (pos rows)) ∷ []

-- On Unix, `resize` of a server that runs with a resource of the NIF, to positive numbers below 2 ^ 16, is
-- a request to that server, which calls the NIF for that resource and size and hands on its reply; and
-- that call asks the system once, for the terminal of the resource and that size, and replies `ok` if the
-- system does it, and the words for the error if not.
pub resize-applies :
    (e : Enif) (pass : Term → e.Term) (utf8 : Text → Bytes) (k : Kernel) (sys : Sys) (s : State)
    (server socket cols rows : ℕ)
    → IsPassed e pass utf8
    → e.get_resource (e.make_resource socket) ≡ some socket
    → s.os_type ≡ Os.unix
    → s.pipesocket ≡ some socket
    → (0 < cols) × (cols < 2 ^ 16)
    → (0 < rows) × (rows < 2 ^ 16)
    → let ev = Event.resize (some socket) (pos cols) (pos rows) in
      (resize (Term.pid server) (Term.integer (pos cols)) (Term.integer (pos rows))
        ≡ call (Term.pid server) (Request.resize (pos cols) (pos rows)))
      × (handle_call (Request.resize (pos cols) (pos rows)) s ≡ reply (Reply.of_nif ev) (log ev s))
      × (failed : Option Errno) × (expty_resize e k
            (argv_of e (resize_args e pass socket cols rows))
            sys
          ≡ returned (answer e failed) (record sys {
            trace =
                Call.set_winsize
                  (fd_of sys socket)
                  (record { ws_col = cols; ws_row = rows; ws_xpixel = 0; ws_ypixel = 0 })
                  failed
                ∷ sys.trace;
          }))
unfolding resize handle_call get_int
resize-applies e pass utf8 k sys s server socket cols rows p r u t c d =
    let (failed, applied) =
      expty_resize-applies e k (argv_of e (resize_args e pass socket cols rows)) sys socket cols
        rows r (p.integer_value (pos cols) (ground arith))
        (p.integer_value (pos rows) (ground arith)) c d in
    (ground arith, ground arith, failed, applied)
