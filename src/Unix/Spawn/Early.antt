-- ===== src/Unix/Spawn/Early.antt =====
-- The runs of `expty_spawn` (c_src/unix/pty.cpp) that jump to the label `done` too early, and all others.
use ex_pty.Prelude.{
  ◌≡◌, ◌⊎◌, inl, inr, refl, Bool, true, false, not, ◌&&◌, ◌||◌, none, some, ◌∷◌, arith,
}
use ex_pty.Enif.{Enif}
use ex_pty.Unix.Termios.{Platform, winsize, spawn_termios}
use ex_pty.Unix.Sys.{Event, Kernel, Sys, History, Outcome, returned, undefined, running}
use ex_pty.Unix.Spawn.Args.{SpawnArgs}
use ex_pty.Unix.Spawn.Jump.{goto_done}
use ex_pty.Unix.Spawn.Run.{Decimal, open_terminal, spawn_with}

-- There is no terminal to be had, or no pipe.
abbrev pub lacks_terminal : Platform → Kernel → SpawnArgs → Sys → Bool
lacks_terminal p k a s =
    let term =
      k.cfsetospeed a.obaudrate (k.cfsetispeed a.ibaudrate (spawn_termios p a.is_utf8 a.echo)) in
    let h : History = Event.block_signals ∷ s.trace in
    elim (k.openpty h) [
      | none ↦ true
      | some ends ↦ elim (k.pipe (Event.openpty term (winsize a.cols a.rows) (some ends) ∷ h)) [
        | none ↦ true
        | some pipe ↦ false
      ]
    ]

-- There is memory for `envs`, but then `argv`, the terminal or the pipe cannot be had.
abbrev pub fails_early : Platform → Kernel → SpawnArgs → Sys → Bool
fails_early p k a s = k.new_envs s.trace && (not (k.new_argv s.trace) || lacks_terminal p k a s)

Outcome-cases {ℓ} :
    {A : Type ℓ} (o : Outcome A)
    → (o ≡ undefined) ⊎ ((o ≡ running) ⊎ ((t : A) × (s' : Sys) × (o ≡ returned t s')))
Outcome-cases (returned t s') = inr (inr (t, s', refl))
Outcome-cases undefined = inl refl
Outcome-cases running = inr (inl refl)

module _ (e : Enif) (p : Platform) (k : Kernel) (a : SpawnArgs) (s : Sys) where
  pub open_terminal-fails_early :
      {t : e.Term} {s' : Sys}
      → k.new_envs s.trace ≡ true
      → open_terminal e p k a s ≡ goto_done t s'
      → fails_early p k a s ≡ true
  unfolding open_terminal
  open_terminal-fails_early e0 h = ground arith

  -- A run returns, but for those that fail too early: of these the destruction of what was never
  -- initialised is undefined.
  pub spawn_with-cases :
      (d : Decimal)
      → ((fails_early p k a s ≡ true) × (spawn_with e d p k a s ≡ undefined))
        ⊎ ((fails_early p k a s ≡ false)
            × (t : e.Term) × (s' : Sys) × (spawn_with e d p k a s ≡ returned t s'))
  unfolding spawn_with open_terminal
  spawn_with-cases d = elim (Outcome-cases (spawn_with e d p k a s)) [
    | inl h ↦ inl (ground arith, h)
    | inr (inl h) ↦ absurd (ground arith)
    | inr (inr (t, s', h)) ↦ inr (ground arith, t, s', h)
  ]
