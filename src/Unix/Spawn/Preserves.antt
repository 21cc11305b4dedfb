-- ===== src/Unix/Spawn/Preserves.antt =====
-- `expty_spawn` (c_src/unix/pty.cpp) keeps the invariant of the NIF.
use ex_pty.Prelude.{
  ℕ, ◌<◌, ◌≡◌, ◌≢◌, refl, sym, Option, List, [], ◌∷◌, inl, inr, arith, Bool-cases, ◌==◌, All,
}
use ex_pty.Enif.{Enif}
use ex_pty.Unix.Termios.{Platform}
use ex_pty.Unix.Sys.{Kernel, Baton, Sys, returned, update}
use ex_pty.Unix.Invariant.{IsEntry, IsWellFormed, WaitsFor}
use ex_pty.Unix.Registry.{insert-IsMap, insert-All}
use ex_pty.Unix.Spawn.Args.{SpawnArgs}
use ex_pty.Unix.Spawn.Run.{Decimal, spawn_with}
use ex_pty.Unix.Spawn.Registered.{Registered}
use ex_pty.Unix.Spawn.Result.{IsAllocated, Unchanged, Settled, spawn_with-Ending}

waits_update :
    (batons : ℕ → Option Baton) (n : ℕ) (x : Option Baton) (b pid : ℕ)
    → b < n
    → WaitsFor pid (batons b)
    → WaitsFor pid (update batons n x b)
unfolding update
waits_update batons n x b pid lt w = elim (Bool-cases (n == b)) [
  | inl same ↦ absurd (ground arith)
  | inr differ ↦ rw (differ, update) w
]

-- From the state on, the allocator gives no resource that is registered in it.
abbrev pub GivesFresh : Kernel → Sys → Type 0
GivesFresh k s = (i : ℕ) → IsAllocated k s i → All (λ q. q.1 ≢ i) s.processes

module _ (k : Kernel) (s s' : Sys) where
  unchanged_entries :
      (m : List (ℕ × ℕ))
      → Unchanged k s s'
      → ((i : ℕ) → IsAllocated k s i → All (λ q. q.1 ≢ i) m)
      → All (IsEntry s.sockets s.batons s.next_baton) m
      → All (IsEntry s'.sockets s'.batons s'.next_baton) m
  unchanged_entries [] u fresh h = tt
  unchanged_entries ((pid, socket) ∷ m) u fresh h = (
    elim (u.others socket) [
      | inl kept ↦ rw (kept, u.batons, u.next_baton) h.0
      | inr al ↦ absurd ((fresh socket al).0 refl)
    ],
    unchanged_entries m u (λ i al. (fresh i al).1) h.1,
  )

  started_entries :
      (socket process pid : ℕ) (m : List (ℕ × ℕ))
      → Registered socket process pid s s'
      → All (λ q. q.1 ≢ socket) m
      → All (IsEntry s.sockets s.batons s.next_baton) m
      → All (IsEntry s'.sockets s'.batons s'.next_baton) m
  started_entries socket process pid [] r fresh h = tt
  started_entries socket process pid ((pid', other) ∷ m) r fresh h = (
    (
      h.0.0,
      rw (r.others other (λ same. fresh.0 (sym same))) h.0.1,
      rw r.next_baton (omega (arith, h.0.2)),
      rw r.batons (waits_update s.batons s.next_baton _ h.0.0 pid' h.0.2 h.0.3),
    ),
    started_entries socket process pid m r fresh.1 h.1,
  )

update_self : {A : Type 0} (f : ℕ → A) (n : ℕ) (x : A) → update f n x n ≡ x
unfolding update
update_self f n x = ground arith

Settled-IsWellFormed :
    (e : Enif) (k : Kernel) (s : Sys) (t : e.Term) (s' : Sys)
    → GivesFresh k s
    → IsWellFormed s
    → Settled e k s t s'
    → IsWellFormed s'
Settled-IsWellFormed e k s t s' fresh w (inl u) = record {
  keys = rw u.processes w.keys;
  entries = rw u.processes (unchanged_entries k s s' s.processes u fresh w.entries);
}
Settled-IsWellFormed e k s t s' fresh w (inr (socket, process, pid, st)) =
    let g = st.registered in
    record {
      keys = rw g.processes (insert-IsMap pid socket s.processes w.keys);
      entries = rw g.processes (
          insert-All (IsEntry s'.sockets s'.batons s'.next_baton) pid socket s.processes
            (s.next_baton, g.baton, rw g.next_baton (omega arith), rw (g.batons, update_self) refl)
            (started_entries k s s' socket process pid s.processes g (fresh socket st.allocated)
              w.entries));
    }

-- A run that returns keeps the invariant, if `enif_alloc_resource` does not give it a resource that is
-- registered when it starts: after it `processes` is a map, in the order of its keys, and each of its
-- entries names a resource with a baton of which the pid, while it is there, is the entry's key.
pub spawn_with-IsWellFormed :
    (e : Enif) (d : Decimal) (p : Platform) (k : Kernel) (a : SpawnArgs) (s : Sys) (t : e.Term)
    (s' : Sys)
    → GivesFresh k s
    → IsWellFormed s
    → spawn_with e d p k a s ≡ returned t s'
    → IsWellFormed s'
spawn_with-IsWellFormed e d p k a s t s' fresh w h =
    Settled-IsWellFormed e k s t s' fresh w (rw h at (spawn_with-Ending e p k d a s))
