-- ===== src/Unix/Handlers/Processes.antt =====
-- `expty_kill` and the destructor of c_src/unix/pty.cpp, and the processes that they signal.
use ex_pty.Prelude.{
  ℕ, ◌≡◌, refl, true, none, some, List, [], ◌∷◌, ◌++◌, map, arith, ℤ, if◌then◌else◌, ◌==◌,
  is_positive, append_assoc, ◌∙◌,
}
use mathlib.Core.List.{reverse, reverse-cons}
use ex_pty.Enif.{Enif}
use ex_pty.Nif.Scalars.{get_int}
use ex_pty.Unix.Sys.{Event, Baton, Sys, returned, lookup, erase, log}
use ex_pty.Unix.History.{signalled}
use ex_pty.Unix.Registry.{lookup-erase, erase-IsMap, erase-All}
use ex_pty.Unix.Invariant.{IsEntry, IsWellFormed}
use ex_pty.Unix.Handlers.Defs.{
  baton_of, sigterm, cleanup_from, cleanup, ok, kill_socket, expty_kill,
}

abbrev pub keys : List (ℕ × ℕ) → List ℕ
keys = map (λ q. q.0)

abbrev terms : List (ℕ × ℕ) → List (ℕ × ℤ)
terms = map (λ q. (q.0, sigterm))

signalled-cleanup_from :
    (m : List (ℕ × ℕ)) (s : Sys)
    → signalled (cleanup_from m s).trace ≡ reverse (terms m) ++ signalled s.trace
unfolding cleanup_from
signalled-cleanup_from [] s = refl
signalled-cleanup_from ((pid, socket) ∷ m) s =
    signalled-cleanup_from m (log (Event.kill pid sigterm) s) ∙ rw (reverse-cons, append_assoc)

-- When the library is unloaded each registered process gets SIGTERM, once, in the order of the pids,
-- and no other process is signalled.
pub signalled-cleanup :
    (s : Sys) → signalled (cleanup s).trace ≡ reverse (terms s.processes) ++ signalled s.trace
unfolding cleanup
signalled-cleanup s = signalled-cleanup_from s.processes s

module _ (e : Enif) where
  -- A kill with a positive signal, of a resource whose baton is there, signals the process of the
  -- baton and no other, replies `ok`, keeps the invariant, and takes that process and no other out of
  -- `processes`, whatever the signal.
  pub expty_kill-erases :
      (argv : ℕ → e.Term) (s : Sys) (socket : ℕ) (signal : ℤ) (b : Baton)
      → e.get_resource (argv 0) ≡ some socket
      → get_int e (argv 1) ≡ some signal
      → is_positive signal ≡ true
      → baton_of s socket ≡ some b
      → IsWellFormed s
      → (s' : Sys) × (expty_kill e argv s ≡ returned (ok e) s')
        × (signalled s'.trace ≡ (b.pid, signal) ∷ signalled s.trace)
        × IsWellFormed s'
        × ((pid : ℕ)
            → lookup pid s'.processes ≡ (if b.pid == pid then none else lookup pid s.processes))
  unfolding expty_kill kill_socket
  expty_kill-erases argv s socket signal b r g h d w = (
    record (log (Event.kill b.pid signal) s) { processes = erase b.pid s.processes },
    ground arith,
    refl,
    record {
      keys = erase-IsMap b.pid s.processes w.keys;
      entries = erase-All (IsEntry s.sockets s.batons s.next_baton) b.pid s.processes w.entries;
    },
    λ pid. lookup-erase pid b.pid s.processes w.keys,
  )
