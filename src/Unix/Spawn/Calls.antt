-- ===== src/Unix/Spawn/Calls.antt =====
-- What a run of `expty_spawn` (c_src/unix/pty.cpp) leaves behind in the operating system: the signal
-- mask, the descriptors and the child.
use ex_pty.Prelude.{
  List, Option, some, none, inl, inr, true, pos, [], map, c_str, ◌&&◌, ◌∷◌, ◌⊎◌, ◌≡◌, ℕ, arith,
  if◌then◌else◌, ◌==◌, ltb,
}
use ex_pty.Enif.{Enif}
use ex_pty.Unix.Termios.{Platform}
use ex_pty.Unix.Sys.{Image, Kernel, Baton, Sys, History, returned, update}
use ex_pty.Unix.History.{
  images, children, pipes, reported, waited, signalled, count, masked, is_openpty, is_posix_spawn,
  is_close_of, is_pipe_of,
}
use ex_pty.Unix.Spawn.Args.{SpawnArgs}
use ex_pty.Unix.Spawn.Run.{
  Decimal, helper_argv, resolve_id, open_terminal, spawn_with, spawn_body, launch, hand_over,
  cleanup,
}

abbrev pub pid_of : Option Baton → Option ℕ
pid_of none = none
pid_of (some b) = some b.pid

abbrev first : List ℕ → ℕ
first [] = 0
first (x ∷ xs) = x

abbrev first_ends : List (ℕ × ℕ) → ℕ × ℕ
first_ends [] = (0, 0)
first_ends (ends ∷ rest) = ends

-- What became of a child of a run that began at a state with the given number for the next baton, and
-- came to the second history from the first: a thread waits for it, through a baton that is its own; or
-- it has reported on the pipe of the run that it did not become the program; or it was killed.
abbrev pub Cared : ℕ → (ℕ → Option Baton) → History → History → ℕ → Type 0
Cared baton batons before after pid =
    ((waited after ≡ baton ∷ waited before)
      × (signalled after ≡ signalled before)
      × (pid_of (batons baton) ≡ some pid))
    ⊎ (((reading : ℕ) × (writing : ℕ) × (pipes after ≡ (reading, writing) ∷ pipes before)
          × (reported after ≡ reading ∷ reported before)
          × (waited after ≡ waited before)
          × (signalled after ≡ signalled before))
        ⊎ ((signalled after ≡ (pid, pos 9) ∷ signalled before) × (waited after ≡ waited before)))

module _ (e : Enif) (d : Decimal) (p : Platform) (k : Kernel) (a : SpawnArgs) (s : Sys) where
  -- Of a run that returns, the signals that it blocks stay blocked in the calling thread exactly if it
  -- has asked for a terminal and has not got as far as `posix_spawn`. Otherwise they are as they were
  -- before the run, blocked or not.
  pub spawn_with-masked :
      (t : e.Term) (s' : Sys)
      → spawn_with e d p k a s ≡ returned t s'
      → masked s'.trace ≡ (
          if ltb (count is_openpty s.trace) (count is_openpty s'.trace)
            && count is_posix_spawn s.trace == count is_posix_spawn s'.trace
          then true
          else masked s.trace)
  unfolding spawn_with open_terminal spawn_body launch hand_over cleanup
  spawn_with-masked t s' h = ground arith

  newest_child :
      (t : e.Term) (s' : Sys)
      → spawn_with e d p k a s ≡ returned t s'
      → ((children s'.trace ≡ children s.trace)
          × (signalled s'.trace ≡ signalled s.trace)
          × (waited s'.trace ≡ waited s.trace))
        ⊎ ((children s'.trace ≡ first (children s'.trace) ∷ children s.trace)
            × (((waited s'.trace ≡ s.next_baton ∷ waited s.trace)
                  × (signalled s'.trace ≡ signalled s.trace)
                  × (pid_of (s'.batons s.next_baton) ≡ some (first (children s'.trace))))
                ⊎ (((pipes s'.trace ≡ first_ends (pipes s'.trace) ∷ pipes s.trace)
                      × (reported s'.trace ≡ (first_ends (pipes s'.trace)).0 ∷ reported s.trace)
                      × (waited s'.trace ≡ waited s.trace)
                      × (signalled s'.trace ≡ signalled s.trace))
                    ⊎ ((signalled s'.trace ≡ (first (children s'.trace), pos 9) ∷ signalled s.trace)
                        × (waited s'.trace ≡ waited s.trace)))))
  unfolding spawn_with open_terminal spawn_body launch hand_over cleanup update
  newest_child t s' h = ground arith

  -- A run that returns has started no child, and then it has sent no signal and started no thread that
  -- waits; or it has started one. Then a thread waits for that child, through a baton that is new and
  -- has its pid; or the helper has reported, on the pipe of the run, that it did not become the program;
  -- or that child was sent SIGKILL. In each case no other process was sent a signal, and no other thread
  -- waits.
  pub spawn_with-children :
      (t : e.Term) (s' : Sys)
      → spawn_with e d p k a s ≡ returned t s'
      → ((children s'.trace ≡ children s.trace)
          × (signalled s'.trace ≡ signalled s.trace)
          × (waited s'.trace ≡ waited s.trace))
        ⊎ ((pid : ℕ) × (children s'.trace ≡ pid ∷ children s.trace)
            × Cared s.next_baton s'.batons s.trace s'.trace pid)
  spawn_with-children t s' h = elim (newest_child t s' h) [
    | inl nothing ↦ inl nothing
    | inr (one, inl waits) ↦ inr (_, one, inl waits)
    | inr (one, inr (inl (piped, report, waits, signals))) ↦
        inr (_, one, inr (inl (_, _, piped, report, waits, signals)))
    | inr (one, inr (inr kills)) ↦ inr (_, one, inr (inr kills))
  ]

  -- The helper with its arguments and its environment.
  abbrev pub wanted_image : Image
  wanted_image = record {
    argv =
        helper_argv d p a (resolve_id a.uid (k.getuid s.trace))
          (resolve_id a.gid (k.getgid s.trace));
    envp = map c_str a.envs;
    cloexec_default = a.close_fds && p.has_cloexec_default;
  }

  -- A run that returns spawns nothing, or the helper and nothing else.
  pub spawn_with-images :
      (t : e.Term) (s' : Sys)
      → spawn_with e d p k a s ≡ returned t s'
      → (images s'.trace ≡ images s.trace) ⊎ (images s'.trace ≡ wanted_image ∷ images s.trace)
  unfolding spawn_with open_terminal spawn_body launch hand_over cleanup
  spawn_with-images t s' h = ground arith

  -- A descriptor that the run's own `pipe` did not give is not closed by a run that returns.
  pub spawn_with-closes :
      (fd : ℕ) (t : e.Term) (s' : Sys)
      → spawn_with e d p k a s ≡ returned t s'
      → count (is_pipe_of fd) s'.trace ≡ count (is_pipe_of fd) s.trace
      → count (is_close_of fd) s'.trace ≡ count (is_close_of fd) s.trace
  unfolding spawn_with open_terminal spawn_body launch hand_over cleanup
  spawn_with-closes fd t s' h same = ground arith
