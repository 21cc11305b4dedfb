-- ===== src/Library/Bounded.antt =====
-- The arguments that the functions of both libraries read.
use ex_pty.Prelude.{ℕ, All}
use ex_pty.Enif.{Enif}
use ex_pty.Unix.Termios.{Platform}
use ex_pty.Unix.Sys.{Kernel}
use ex_pty.Unix.Spawn.Run.{Decimal}
use ex_pty.Win.PathUtil.{PathUtil}
use ex_pty.Win.Conpty.State.{Api}
use ex_pty.Library.Defs.{IsBounded}
use ex_pty.Library.Unix
use ex_pty.Library.Windows

-- No function of either table reads an argument that it was not given: a call of any of them is determined
-- by its state and the terms below the arity of its entry.
pub functions-IsBounded :
    (e : Enif) (d : Decimal) (p : Platform) (k : Kernel) (u : PathUtil) (a : Api) (fuel : ℕ)
    → All IsBounded (Unix.nif_functions e d p k fuel)
      × All IsBounded (Windows.nif_functions e u a fuel)
functions-IsBounded e d p k u a fuel =
    (Unix.nif_functions-IsBounded e d p k fuel, Windows.nif_functions-IsBounded e u a fuel)
