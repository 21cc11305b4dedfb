-- ===== src/Win/Conpty/Kept.antt =====
-- What the handlers of c_src/win/conpty.cc keep of the numbering of the handles.
use ex_pty.Prelude.{
  ℕ, ◌+◌, ◌<◌, ◌≤◌, ◌^◌, ◌≡◌, refl, Bool-cases, is_positive, ◌&&◌, true, false, none, some,
  Option-cases, inl, inr, ℤ, arith,
}
use ex_pty.Enif.{Enif}
use ex_pty.Nif.Scalars.{get_int}
use ex_pty.Win.Path.{Wide}
use ex_pty.Win.PathUtil.{PathUtil}
use ex_pty.Win.Conpty.State.{Api, Baton, State, increment, get_pty_baton, modify}
use ex_pty.Win.Conpty.Step.{Outcome, returned, undefined, blocked, Jump, next, ends, outcome}
use ex_pty.Win.Conpty.Numbered.{Rising, IsNumbered, Rising-modify}
use ex_pty.Win.Conpty.Starts.{finish, connected, connect_with-finish, connect_with-missing}
use ex_pty.Win.Conpty.Ending.{ReportsErrors, Ending, conpty_spawn-Ending}
use ex_pty.Win.Conpty.Finds.{spawn_with-IsNumbered}
use ex_pty.Win.Conpty.Spawn
use ex_pty.Win.Conpty.Connect
use ex_pty.Win.Conpty.Spawn.{expty_spawn, spawn_with}
use ex_pty.Win.Conpty.Connect.{
  ConnectArgs, Read, no_fuel, refused, accepted, command, connect_pipes, start_process,
  connect_with, expty_pty_connect,
}
use ex_pty.Win.Conpty.Handlers.{locking, write, write_with, resize_with, expty_write, expty_resize}

-- The handles are numbered up to n, and the counter is n.
abbrev pub Kept : ℕ → State → Type 0
Kept n s = Rising 0 n s.handles × (s.counter ≡ n)

-- The property holds of the state in which a call returns, or a statement goes on.
abbrev pub Returned : {T : Type 0} → (State → Type 0) → Outcome T → Type 0
Returned P (returned t s) = P s
Returned P undefined = Unit {0}
Returned P blocked = Unit {0}

abbrev After {ℓ} : {T : Type 0} {A : Type ℓ} → (State → Type 0) → Jump T A → Type 0
After P (next a s) = P s
After P (ends r) = Returned P r

outcome-Returned :
    {T : Type 0} (P : State → Type 0) (j : Jump T T) → After P j → Returned P (outcome j)
outcome-Returned P (next t s) i = i
outcome-Returned P (ends r) i = i

module _ (e : Enif) (u : PathUtil) (a : Api) (n : ℕ) where
  start_process-Keeps :
      (b : Baton) (args : ConnectArgs) (s : State)
      → Kept n s
      → After (Kept n) (start_process e u a b (command e u a args) s)
  unfolding start_process
  start_process-Keeps b args s i = ground arith

  write_with-Keeps :
      (id : ℤ) (t : e.Term) (s : State) → Kept n s → After (Kept n) (write_with e a id t s)
  unfolding write_with write
  write_with-Keeps id t s i = ground (
    arith,
    Rising-modify (locking true) id 0 n s.handles (λ b. refl),
    Rising-modify (locking false) id 0 n (modify (locking true) id s.handles) (λ b. refl),
  )

  resize_with-Keeps :
      (id cols rows : ℤ) (s : State) → Kept n s → After (Kept n) (resize_with e a id cols rows s)
  unfolding resize_with
  resize_with-Keeps id cols rows s i = ground arith

  finish-Returned :
      (b : Baton) (args : ConnectArgs) (j : Jump e.Term (ℕ × ℕ))
      → After (Kept n) j
      → Returned (Kept n) (outcome (finish e u a b (command e u a args) args j))
  finish-Returned b args (next (shell, pid) s) (r, c) = (
    Rising-modify (λ b'. record b' { shell = some shell }) args.pty_id 0 n s.handles (λ b'. refl) r,
    c,
  )
  finish-Returned b args (ends r) i = i

  connect_with-Returned :
      (args : ConnectArgs) (s : State)
      → Kept n s
      → Returned (Kept n) (outcome (connect_with e u a args s))
  connect_with-Returned args s (r, c) = elim (Option-cases (get_pty_baton args.pty_id s.handles)) [
    | inl missing ↦ rw (connect_with-missing e u a args s missing) (r, c)
    | inr (b, found) ↦
        let s' = connected e u a b (command e u a args) args.pty_id s in
        let kept : Kept n s' = (
          Rising-modify (λ b'. record b' { locked = false }) args.pty_id 0 n s.handles (λ b'. refl)
              r,
          c,
        ) in
        rw
          (connect_with-finish e u a args s b (start_process e u a b (command e u a args) s') found
            refl)
          (finish-Returned b args (start_process e u a b (command e u a args) s')
            (start_process-Keeps b args s' kept))
  ]

module _ (e : Enif) (u : PathUtil) (a : Api) (fuel n : ℕ) (argv : ℕ → e.Term) (s : State) where
  pub expty_write-Returned : Kept n s → Returned (Kept n) (expty_write e a argv s)
  unfolding expty_write
  expty_write-Returned i = elim (Option-cases (get_int e (argv 0))) [
    | inl missing ↦ rw (missing, expty_write) i
    | inr (id, got) ↦
        rw (got, expty_write)
          (outcome-Returned (Kept n) (write_with e a id (argv 1) s)
            (write_with-Keeps e u a n id (argv 1) s i))
  ]

  pub expty_resize-Returned : Kept n s → Returned (Kept n) (expty_resize e a argv s)
  unfolding expty_resize
  expty_resize-Returned i = elim (Option-cases (get_int e (argv 0))) [
    | inl missing ↦ rw (missing, expty_resize) i
    | inr (id, first) ↦ elim (Option-cases (get_int e (argv 1))) [
      | inl missing ↦ rw (first, missing, expty_resize) i
      | inr (cols, second) ↦ elim (Option-cases (get_int e (argv 2))) [
        | inl missing ↦ rw (first, second, missing, expty_resize) i
        | inr (rows, third) ↦ elim (Bool-cases (is_positive cols && is_positive rows)) [
          | inl passes ↦
              rw (first, second, third, passes, expty_resize)
                (outcome-Returned (Kept n) (resize_with e a id cols rows s)
                  (resize_with-Keeps e u a n id cols rows s i))
          | inr fails ↦ rw (first, second, third, fails, expty_resize) i
        ]
      ]
    ]
  ]

  accepted-Kept :
      (t : e.Term) (s' : State) (r : Read)
      → Kept n s
      → (elim r [
        | no_fuel ↦ none
        | refused ↦ some (returned e.make_badarg s)
        | accepted args ↦ some (outcome (connect_with e u a args s))
      ])
        ≡ some (returned t s')
      → Kept n s'
  accepted-Kept t s' no_fuel i h = absurd cc
  accepted-Kept t s' refused i h = let q : s ≡ s' = cc in rw q at i
  accepted-Kept t s' (accepted args) i h =
      let q : outcome (connect_with e u a args s) ≡ returned t s' = cc in
      rw q at (connect_with-Returned e u a n args s i)

  pub expty_pty_connect-Kept :
      (t : e.Term) (s' : State)
      → Kept n s
      → expty_pty_connect e u a fuel argv s ≡ some (returned t s')
      → Kept n s'
  unfolding expty_pty_connect
  expty_pty_connect-Kept t s' i h = accepted-Kept t s' (Connect.read_args e fuel argv) i h

  Ending-counter :
      (name : Wide) (t : e.Term) (s' : State)
      → Ending e a name s (returned t s')
      → s'.counter ≤ s.counter + 1
  unfolding increment
  Ending-counter name t s' (inl (h, bad, inl c)) = omega arith
  Ending-counter name t s' (inl (h, bad, inr c)) = omega arith
  Ending-counter name t s' (inr (b, r, conin, conout, reply)) = omega (arith, r.counter)

  pub expty_spawn-Kept :
      (t : e.Term) (s' : State)
      → ReportsErrors a
      → s.counter + 1 < 2 ^ 32
      → IsNumbered s
      → expty_spawn e u a argv s ≡ returned t s'
      → IsNumbered s' × (s'.counter ≤ s.counter + 1)
  unfolding expty_spawn
  expty_spawn-Kept t s' r lt i h = elim (Option-cases (Spawn.read_args e argv)) [
    | inl missing ↦ absurd (ground arith)
    | inr (args, got) ↦
        let q : outcome (spawn_with e u a args s) ≡ returned t s' = ground arith in
        (
          (spawn_with-IsNumbered e u a args s t s' r lt i q).0,
          Ending-counter (u.to_wstring args.pipe_name) t s'
              (rw q at (conpty_spawn-Ending e u a args s r)),
        )
  ]
