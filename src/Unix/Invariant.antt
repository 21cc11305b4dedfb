-- ===== src/Unix/Invariant.antt =====
-- What holds of the state of c_src/unix/pty.cpp between its calls.
use ex_pty.Prelude.{ℕ, ◌<◌, ◌≡◌, Option, none, some, All}
use ex_pty.Unix.Sys.{Pipesocket, Baton, Sys}
use ex_pty.Unix.Registry.{IsMap}

-- A baton that is there waits for the process `pid`.
abbrev pub WaitsFor : ℕ → Option Baton → Type 0
WaitsFor pid none = Unit {0}
WaitsFor pid (some b) = b.pid ≡ pid

-- An entry of `processes` names a resource with a baton that was made for the process.
abbrev pub IsEntry : (ℕ → Pipesocket) → (ℕ → Option Baton) → ℕ → ℕ × ℕ → Type 0
IsEntry sockets batons next (pid, socket) =
    (b : ℕ) × ((sockets socket).baton ≡ some b) × (b < next) × WaitsFor pid (batons b)

pub record IsWellFormed (s : Sys) : Type 0 where
  -- `processes` is a map from pids, in order.
  pub keys : IsMap s.processes
  pub entries : All (IsEntry s.sockets s.batons s.next_baton) s.processes
