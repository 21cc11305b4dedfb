-- ===== src/Unix/Spawn/Registered.antt =====
-- Which state `expty_spawn` (c_src/unix/pty.cpp) leaves in the NIF: either none of it has changed, or
-- the child is registered with a baton of its own, and the reply names it.
use ex_pty.Prelude.{
  ℕ, suc, ◌≡◌, ◌≢◌, refl, false, some, List, ◌⊎◌, inl, inr, arith, Bytes, pos, Option-cases, [],
  ◌∷◌, ◌++◌, ◌&&◌,
}
use ex_pty.Enif.{Enif}
use ex_pty.Nif.Make.{make_string}
use ex_pty.Unix.Termios.{Termios, Platform, winsize, spawn_termios}
use ex_pty.Unix.Sys.{Event, Kernel, Baton, Sys, update, insert}
use ex_pty.Unix.History.{children}
use ex_pty.Unix.Spawn.Args.{SpawnArgs}
use ex_pty.Unix.Spawn.Jump.{Jump, next, goto_done}
use ex_pty.Unix.Spawn.Run.{open_terminal, set_actions, launch, hand_over}

-- The state after a statement, whether or not it jumps.
abbrev pub state_of {ℓ} : {T : Type 0} {A : Type ℓ} → Jump T A → Sys
state_of (next a s) = s
state_of (goto_done t s) = s

pub Jump-cases {ℓ} :
    {T : Type 0} {A : Type ℓ} (j : Jump T A)
    → ((a : A) × (s : Sys) × (j ≡ next a s)) ⊎ ((t : T) × (s : Sys) × (j ≡ goto_done t s))
Jump-cases (next a s) = inl (a, s, refl)
Jump-cases (goto_done t s) = inr (t, s, refl)

-- The tables of the NIF are as they were.
pub record Same (s s' : Sys) : Type 0 where
  pub processes : s'.processes ≡ s.processes
  pub batons : s'.batons ≡ s.batons
  pub next_baton : s'.next_baton ≡ s.next_baton
  pub others : s'.sockets ≡ s.sockets

-- So they are but for the fields of one resource.
pub record SameBut (socket : ℕ) (s s' : Sys) : Type 0 where
  pub processes : s'.processes ≡ s.processes
  pub batons : s'.batons ≡ s.batons
  pub next_baton : s'.next_baton ≡ s.next_baton
  pub others : (other : ℕ) → socket ≢ other → s'.sockets other ≡ s.sockets other

abbrev pub fresh_baton : ℕ → ℕ → Baton
fresh_baton process pid = record {
  process = some process;
  fd_closed = false;
  exit_code = pos 0;
  signal_code = pos 0;
  pid = pid;
}

-- The child `pid` is registered: its resource has the new baton.
pub record Registered (socket process pid : ℕ) (s s' : Sys) : Type 0 where
  pub processes : s'.processes ≡ insert pid socket s.processes
  pub baton : (s'.sockets socket).baton ≡ some s.next_baton
  pub others : (other : ℕ) → socket ≢ other → s'.sockets other ≡ s.sockets other
  pub batons : s'.batons ≡ update s.batons s.next_baton (some (fresh_baton process pid))
  pub next_baton : s'.next_baton ≡ suc s.next_baton

module _ (e : Enif) (p : Platform) (k : Kernel) where
  -- Up to the child nothing is assigned.
  pub launch-Same :
      (a : SpawnArgs) (argv envp : List Bytes) (c : ℕ × ℕ × ℕ × ℕ) (s : Sys)
      → Same s (state_of (launch e p k a argv envp c s))
  unfolding launch
  launch-Same a argv envp c s = ground arith

  pub open_terminal-Same : (a : SpawnArgs) (s : Sys) → Same s (state_of (open_terminal e p k a s))
  unfolding open_terminal
  open_terminal-Same a s = ground arith

  -- The trace of a terminal and a pipe that could be had.
  pub open_terminal-later :
      (a : SpawnArgs) (s : Sys) {c : ℕ × ℕ × ℕ × ℕ} {s' : Sys}
      → open_terminal e p k a s ≡ next c s'
      → (new : List Event) × (s'.trace ≡ new ++ s.trace)
  unfolding open_terminal
  open_terminal-later a s h = (
    Event.pipe (k.pipe h2)
        ∷ Event.openpty term (winsize a.cols a.rows) (k.openpty h1)
        ∷ Event.block_signals
        ∷ [],
    ground arith,
  )
    where
      term : Termios
      term =
          k.cfsetospeed a.obaudrate (k.cfsetispeed a.ibaudrate (spawn_termios p a.is_utf8 a.echo))

      h1 : List Event
      h1 = Event.block_signals ∷ s.trace

      h2 : List Event
      h2 = Event.openpty term (winsize a.cols a.rows) (k.openpty h1) ∷ h1

  -- The resource is one that was allocated by the run.
  pub launch-allocated :
      (a : SpawnArgs) (argv envp : List Bytes) (o : ℕ × ℕ × ℕ × ℕ) (s : Sys) {c : ℕ × ℕ × ℕ × ℕ}
      {s' : Sys}
      → launch e p k a argv envp o s ≡ next c s'
      → (new : List Event) × (k.alloc_resource (new ++ s.trace) ≡ some c.1)
  unfolding launch set_actions
  launch-allocated a argv envp (master, slave, reading, writing) s h = (
    Event.set_flags (a.close_fds && p.has_cloexec_default)
        ∷ Event.spawnattr_init
        ∷ Event.add_close writing
        ∷ Event.add_dup2 writing 3
        ∷ Event.add_dup2 slave 2
        ∷ Event.add_dup2 slave 1
        ∷ Event.add_dup2 slave 0
        ∷ Event.file_actions_init
        ∷ [],
    ground arith,
  )

  -- A child that is to be handed over is the one that `posix_spawn` has started.
  pub launch-children :
      (a : SpawnArgs) (argv envp : List Bytes) (o : ℕ × ℕ × ℕ × ℕ) (s : Sys) {c : ℕ × ℕ × ℕ × ℕ}
      {s' : Sys}
      → launch e p k a argv envp o s ≡ next c s'
      → children s'.trace ≡ c.3 ∷ children s.trace
  unfolding launch
  launch-children a argv envp o s h = ground arith

  pub open_terminal-children :
      (a : SpawnArgs) (s : Sys)
      → children (state_of (open_terminal e p k a s)).trace ≡ children s.trace
  unfolding open_terminal
  open_terminal-children a s = ground arith

  pub hand_over-children :
      (master socket process pid : ℕ) (s : Sys)
      → children (state_of (hand_over e p k master socket process pid s)).trace ≡ children s.trace
  unfolding hand_over
  hand_over-children master socket process pid s = ground arith

  pub hand_over_done :
      (master socket process pid : ℕ) (s : Sys) {t : e.Term} {s' : Sys}
      → hand_over e p k master socket process pid s ≡ goto_done t s'
      → SameBut socket s s'
  unfolding hand_over update
  hand_over_done master socket process pid s h = record {
    processes = ground arith;
    batons = ground arith;
    next_baton = ground arith;
    others = λ other ne. ground arith;
  }

  pub hand_over_next :
      (master socket process pid : ℕ) (s : Sys) {t : e.Term} {s' : Sys}
      → hand_over e p k master socket process pid s ≡ next t s'
      → Registered socket process pid s s'
  unfolding hand_over update
  hand_over_next master socket process pid s h = record {
    processes = ground arith;
    baton = ground arith;
    others = λ other ne. ground arith;
    batons = ground arith;
    next_baton = ground arith;
  }

  pub hand_over-reply :
      (master socket process pid : ℕ) (s : Sys) {t : e.Term} {s' : Sys}
      → hand_over e p k master socket process pid s ≡ next t s'
      → (tty : e.Term) × (t ≡ e.make_tuple3 (e.make_resource socket) (e.make_int (pos pid)) tty)
  unfolding hand_over update
  hand_over-reply master socket process pid s h =
      elim (Option-cases (make_string e (k.ptsname s.trace master))) [
        | inl e0 ↦ absurd (ground arith)
        | inr (tty, e0) ↦ (tty, ground arith)
      ]
