-- ===== src/Win/Conpty/Starts.antt =====
-- `expty_pty_connect` of c_src/win/conpty.cc: which process it starts, and its replies.
use ex_pty.Prelude.{
  ℕ, ◌≡◌, ◌⊎◌, inl, inr, refl, ap, ◌∙◌, true, false, none, some, List, [], ◌∷◌, ℤ, pos, codes,
  c_str, Bool-cases, Option-cases,
}
use ex_pty.Enif.{Enif}
use ex_pty.Nif.Make.{atom, error}
use ex_pty.Win.PathUtil.{PathUtil}
use ex_pty.Win.Conpty.State.{Event, History, Command, Api, Baton, State, get_pty_baton, modify}
use ex_pty.Win.Conpty.Step.{Outcome, returned, undefined, blocked, Jump, next, ends, outcome}
use ex_pty.Win.Conpty.Ending.{IsError}
use ex_pty.Win.Conpty.Connect.{
  ConnectArgs, command, env_block, widen, connect_pipes, start_process, connect_with,
  pseudoconsole_attribute,
}

-- The processes that came to be, with their ids, the newest first.
abbrev pub created : History → List (Command × ℕ)
created [] = []
created (Event.create_process cmd (some (shell, pid)) ∷ h) = (cmd, pid) ∷ created h
created (_ ∷ h) = created h

-- The consoles that were attached to a process that is to come, the newest first.
abbrev pub attached : History → List ℕ
attached [] = []
attached (Event.update_attributes kind hpc true ∷ h) = hpc ∷ attached h
attached (_ ∷ h) = attached h

abbrev pub Result : (e : Enif) → ConnectArgs → Command → Baton → State → Outcome e.Term → Type 0
Result e args cmd b s (returned t s') =
    ((pid : ℕ) × (t ≡ e.make_tuple2 (atom e (codes "ok")) (e.make_int64 (pos pid)))
      × (created s'.trace ≡ (cmd, pid) ∷ created s.trace)
      × (attached s'.trace ≡ b.hpc ∷ attached s.trace))
    ⊎ (IsError e t × (created s'.trace ≡ created s.trace))
Result e args cmd b s undefined = ⊥
Result e args cmd b s blocked = ⊥

-- What the attribute list and the process leave.
abbrev Started : (e : Enif) → Baton → Command → State → Jump e.Term (ℕ × ℕ) → Type 0
Started e b cmd s (next (shell, pid) s') =
    (created s'.trace ≡ (cmd, pid) ∷ created s.trace)
    × (attached s'.trace ≡ b.hpc ∷ attached s.trace)
Started e b cmd s (ends (returned t s')) = IsError e t × (created s'.trace ≡ created s.trace)
Started e b cmd s (ends undefined) = ⊥
Started e b cmd s (ends blocked) = ⊥

module _ (e : Enif) (u : PathUtil) (a : Api) (b : Baton) (cmd : Command) where
  start_process-Started : (s : State) → Started e b cmd s (start_process e u a b cmd s)
  unfolding start_process
  start_process-Started s =
      let h1 : History = Event.init_attributes (a.init_attributes s.trace) ∷ s.trace in
      let up = a.update_attributes h1 in
      let h2 : History = Event.update_attributes (pseudoconsole_attribute e u a) b.hpc true ∷ h1 in
      elim (Bool-cases up) [
        | inr fails ↦ rw fails ((_, refl), refl)
        | inl updated ↦ elim (Option-cases (a.create_process h2 cmd)) [
          | inl fails ↦ rw (updated, fails) ((_, refl), refl)
          | inr (p, starts) ↦ rw (updated, starts) (refl, refl)
        ]
      ]

  -- What is done with a process that has started.
  abbrev pub finish : ConnectArgs → Jump e.Term (ℕ × ℕ) → Jump e.Term e.Term
  finish args (next (shell, pid) s) =
      next (e.make_tuple2 (atom e (codes "ok")) (e.make_int64 (pos pid))) (record {
        trace = Event.register_wait shell ∷ Event.async_init args.pty_id ∷ s.trace;
        handles = modify (λ b'. record b' { shell = some shell }) args.pty_id s.handles;
        counter = s.counter;
      })
  finish args (ends r) = ends r

  connect_then :
      (args : ConnectArgs) (s s' : State) (j : Jump e.Term (ℕ × ℕ))
      → created s'.trace ≡ created s.trace
      → attached s'.trace ≡ attached s.trace
      → Started e b cmd s' j
      → Result e args cmd b s (outcome (finish args j))
  connect_then args s s' (next (shell, pid) s'') c t h =
      inl (pid, refl, h.0 ∙ ap (◌∷◌ (cmd, pid)) c, h.1 ∙ ap (◌∷◌ b.hpc) t)
  connect_then args s s' (ends (returned r s'')) c t h = inr (h.0, h.1 ∙ c)
  connect_then args s s' (ends undefined) c t h = absurd h
  connect_then args s s' (ends blocked) c t h = absurd h

  -- The state in which the process is started.
  abbrev pub connected : ℤ → State → State
  connected id s = record {
    trace =
        Event.connect_pipe b.out_handle
        ∷ Event.start_reader id
        ∷ Event.connect_pipe b.in_handle
        ∷ Event.start_writer id
        ∷ Event.mutex_init id
        ∷ s.trace;
    handles = modify (λ b'. record b' { locked = false }) id s.handles;
    counter = s.counter;
  }

-- The process that was asked for: its command line and its directory are those of the call as wide
-- text, and its environment is the block of the call's strings.
abbrev pub asked_for : PathUtil → ConnectArgs → Command
asked_for u args = record {
  line = c_str (u.to_wstring args.cmdline);
  env = env_block (widen u args.env_strings);
  cwd = c_str (u.to_wstring args.cwd);
}

module _ (e : Enif) (u : PathUtil) (a : Api) (args : ConnectArgs) (s : State) (b : Baton) where
  command-asked_for : command e u a args ≡ asked_for u args
  unfolding command
  command-asked_for = refl

  -- A process that starts, and one that does not.
  pub connect_with-finish :
      (j : Jump e.Term (ℕ × ℕ))
      → get_pty_baton args.pty_id s.handles ≡ some b
      → start_process e u a b
          (command e u a args)
          (connected e u a b (command e u a args) args.pty_id s)
        ≡ j
      → outcome (connect_with e u a args s) ≡ outcome (finish e u a b (command e u a args) args j)
  unfolding connect_with connect_pipes
  connect_with-finish (next (shell, pid) s') f q = rw (f, q, connect_with, outcome) refl
  connect_with-finish (ends r) f q = rw (f, q, connect_with, outcome) refl

  -- A call for a handle that is there starts one process, at the console of the handle and with the
  -- command line, the directory and the environment of the call, and replies `ok` and its id; or it starts none, and replies an error.
  pub connect_with-Result :
      get_pty_baton args.pty_id s.handles ≡ some b
      → Result e args (asked_for u args) b s (outcome (connect_with e u a args s))
  connect_with-Result f =
      let cmd = command e u a args in
      let s' = connected e u a b cmd args.pty_id s in
      rw (← command-asked_for, connect_with-finish (start_process e u a b cmd s') f refl)
        (connect_then e u a b cmd args s s' (start_process e u a b cmd s') refl refl
          (start_process-Started e u a b cmd s'))

module _ (e : Enif) (u : PathUtil) (a : Api) (args : ConnectArgs) (s : State) where
  -- A call for an id without a handle does nothing.
  pub connect_with-missing :
      get_pty_baton args.pty_id s.handles ≡ none
      → outcome (connect_with e u a args s) ≡ returned (error e (codes "Invalid pty handle")) s
  unfolding connect_with
  connect_with-missing f = rw (f, connect_with, outcome) refl
