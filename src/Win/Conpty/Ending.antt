-- ===== src/Win/Conpty/Ending.antt =====
-- How `expty_spawn` of c_src/win/conpty.cc ends, and what it leaves in `ptyHandles`.
use ex_pty.Prelude.{
  ℕ, ◌≡◌, ◌⊎◌, inl, inr, refl, ap, Bool, true, false, none, some, [], ◌∷◌, ◌++◌, Bytes, ℤ, arith,
  ◌&&◌, not, is_nonneg, codes, Option-cases, Bool-cases,
}
use ex_pty.Enif.{Enif}
use ex_pty.Nif.Make.{error, make_string}
use ex_pty.Win.Path.{Wide}
use ex_pty.Win.PathUtil.{PathUtil}
use ex_pty.Win.Conpty.State.{Event, Coord, History, Api, Baton, State, increment, signed32}
use ex_pty.Win.Conpty.Step.{Outcome, returned, undefined, blocked, Jump, next, ends, outcome}
use ex_pty.Win.Conpty.Pipes.{Console, create_console, create_data_server_pipe}
use ex_pty.Win.Conpty.Spawn.{
  SpawnArgs, is_empty, shell_path, new_baton, use_console, launch, hand_over, spawn_with,
}

-- Behind a call that failed there is an error, of which the HRESULT is negative.
abbrev pub ReportsErrors : Api → Type 0
ReportsErrors a = (h : History) → is_nonneg (a.last_error h) ≡ false

abbrev pub IsError : (e : Enif) → e.Term → Type 0
IsError e t = (msg : Bytes) × (t ≡ error e msg)

-- No handle is registered, and no id is taken.
abbrev pub Unchanged : State → State → Type 0
Unchanged s s' = (s'.handles ≡ s.handles) × (s'.counter ≡ s.counter)

abbrev has_all : Console → Bool
has_all c = elim (c.in_handle) [
  | none ↦ false
  | some i ↦ elim (c.out_handle) [
    | none ↦ false
    | some o ↦ elim (c.hpc) [ none ↦ false | some hpc ↦ true ]
  ]
]

-- The names of the two ends of a console.
abbrev pub in_end : Wide → Wide
in_end name = codes "\\\\.\\pipe\\" ++ (name ++ (codes "-" ++ codes "in"))

abbrev pub out_end : Wide → Wide
out_end name = codes "\\\\.\\pipe\\" ++ (name ++ (codes "-" ++ codes "out"))

-- A result is a failure, or all handles were stored, and the names of both ends.
abbrev Stored : {T : Type 0} → Wide → State → Jump T (ℤ × Console) → Type 0
Stored name s (next (code, c) s') =
    Unchanged s s'
    × ((is_nonneg code && not (has_all c)) ≡ false)
    × (is_nonneg code ≡ true → c.in_name ≡ in_end name)
    × (is_nonneg code ≡ true → c.out_name ≡ out_end name)
Stored name s (ends r) = ⊥

create_console-Stored :
    (T : Type 0) (a : Api) (size : Coord) (flags : ℕ) (name : Wide) (s : State)
    → ReportsErrors a
    → Stored {T = T} name s (create_console a size flags true name s)
unfolding create_console create_data_server_pipe
create_console-Stored T a size flags name s r =
    let in_name : Wide = codes "\\\\.\\pipe\\" ++ (name ++ (codes "-" ++ codes "in")) in
    let out_name : Wide = codes "\\\\.\\pipe\\" ++ (name ++ (codes "-" ++ codes "out")) in
    let h1 : History = Event.load_library (a.load_library s.trace) ∷ s.trace in
    let h2 : History = Event.find_function (a.find_function h1) ∷ h1 in
    let h3 : History = Event.create_pipe in_name true (a.create_pipe h2 in_name) ∷ h2 in
    let h4 : History = Event.create_pipe out_name false (a.create_pipe h3 out_name) ∷ h3 in
    ground (arith, r h1, r h2, r h3, r h4)

module _ (e : Enif) (u : PathUtil) (a : Api) (args : SpawnArgs) (s : State) where
  abbrev asked_name : Wide
  asked_name = u.to_wstring args.pipe_name

  abbrev Launched : Jump e.Term (ℕ × ℕ × ℕ × Wide × Wide) → Type 0
  Launched (next (i, o, hpc, inn, outn) s') =
      Unchanged s s' × (inn ≡ in_end asked_name) × (outn ≡ out_end asked_name)
  Launched (ends (returned t s')) = (t ≡ error e (codes "Cannot launch conpty")) × Unchanged s s'
  Launched (ends undefined) = ⊥
  Launched (ends blocked) = ⊥

  use_console-Launched :
      (c : ℤ × Console) (s' : State)
      → Unchanged s s'
      → (is_nonneg (c.0) && not (has_all (c.1))) ≡ false
      → (is_nonneg (c.0) ≡ true → c.1.in_name ≡ in_end asked_name)
      → (is_nonneg (c.0) ≡ true → c.1.out_name ≡ out_end asked_name)
      → Launched (use_console e u a c s')
  unfolding use_console
  use_console-Launched c s' h k i o = ground (arith, h, k, i, o)

  launch_then :
      (j : Jump e.Term (ℤ × Console))
      → Stored asked_name s j
      → Launched (elim j [ next c s' ↦ use_console e u a c s' | ends r ↦ ends r ])
  launch_then (next (code, c) s') h = use_console-Launched (code, c) s' h.0 h.1 h.2 h.3
  launch_then (ends r) h = absurd h

  launch-Launched : ReportsErrors a → Launched (launch e u a args s)
  unfolding launch
  launch-Launched r = launch_then _ (create_console-Stored e.Term a _ _ _ s r)

-- A handle that is at the end of the vector, of the next id, with no end opened yet.
pub record Registered (s s' : State) (b : Baton) : Type 0 where
  pub handles : s'.handles ≡ s.handles ++ b ∷ []
  pub counter : s'.counter ≡ increment s.counter
  pub id : b.id ≡ signed32 (increment s.counter)
  pub write_ready : b.write_ready ≡ false
  pub locked : b.locked ≡ false
  pub real_in : b.real_in ≡ none

-- A call is refused and registers nothing, or it registers a handle. Then it replies with the handle's
-- id and the names of both ends, or with an error all the same.
abbrev pub Ending : (e : Enif) → Api → Wide → State → Outcome e.Term → Type 0
Ending e a name s undefined = ⊥
Ending e a name s blocked = ⊥
Ending e a name s (returned t s') =
    ((s'.handles ≡ s.handles)
      × IsError e t
      × ((s'.counter ≡ s.counter) ⊎ (s'.counter ≡ increment s.counter)))
    ⊎ ((b : Baton) × Registered s s' b
        × (b.in_name ≡ in_end name)
        × (b.out_name ≡ out_end name)
        × (((conin : e.Term) × (conout : e.Term) × (t
                ≡ e.make_tuple3 (e.make_int b.id) conin conout)
              × (make_string e (a.to_bytes (in_end name)) ≡ some conin)
              × (make_string e (a.to_bytes (out_end name)) ≡ some conout))
            ⊎ IsError e t))

registered :
    (s s' : State) (p : ℕ) (i o hpc : ℕ) (inn outn : Wide)
    → Unchanged s s'
    → let b = new_baton p (signed32 (increment s'.counter)) i o hpc inn outn in
      Registered s (record s' { counter = increment s'.counter; handles = s'.handles ++ b ∷ [] }) b
registered s s' p i o hpc inn outn (h, c) = record {
  handles = rw h refl;
  counter = rw c refl;
  id = rw c refl;
  write_ready = refl;
  locked = refl;
  real_in = refl;
}

module _ (e : Enif) (u : PathUtil) (a : Api) where
  hand_over-Ending :
      (i o hpc : ℕ) (name inn outn : Wide) (s s' : State)
      → Unchanged s s'
      → inn ≡ in_end name
      → outn ≡ out_end name
      → Ending e a name s (outcome (hand_over e u a i o hpc inn outn s'))
  unfolding hand_over
  hand_over-Ending i o hpc name inn outn s s' h first_name second_name =
      elim (Option-cases (a.alloc_pid s'.trace)) [
        | inl full ↦ rw full (inl (h.0, (_, refl), inr (ap increment h.1)))
        | inr (p, got) ↦ elim (Option-cases (make_string e (a.to_bytes inn))) [
          | inl full ↦
              rw (got, full)
                (inr
                  (_, registered s s' p i o hpc inn outn h, first_name, second_name, inr (_, refl)))
          | inr (conin, first) ↦ elim (Option-cases (make_string e (a.to_bytes outn))) [
            | inl full ↦
                rw (got, first, full)
                  (inr (
                    _,
                    registered s s' p i o hpc inn outn h,
                    first_name,
                    second_name,
                    inr (_, refl),
                  ))
            | inr (conout, second) ↦
                rw (got, first, second)
                  (inr (
                    _,
                    registered s s' p i o hpc inn outn h,
                    first_name,
                    second_name,
                    inl (conin, conout, refl, rw (← first_name) first, rw (← second_name) second),
                  ))
          ]
        ]
      ]

  spawn_then :
      (args : SpawnArgs) (s : State) (j : Jump e.Term (ℕ × ℕ × ℕ × Wide × Wide))
      → Launched e u a args s j
      → Ending e a (u.to_wstring args.pipe_name) s (
          outcome (elim j [
            | next (i, o, hpc, inn, outn) s' ↦ hand_over e u a i o hpc inn outn s'
            | ends r ↦ ends r
          ]))
  spawn_then args s (next (i, o, hpc, inn, outn) s') h =
      hand_over-Ending i o hpc (u.to_wstring args.pipe_name) inn outn s s' h.0 h.1 h.2
  spawn_then args s (ends (returned t s')) h = inl (h.1.0, (_, h.0), inl h.1.1)
  spawn_then args s (ends undefined) h = absurd h
  spawn_then args s (ends blocked) h = absurd h

  -- Behind its condition, where Windows reports its errors, a call returns. It is refused with an error
  -- and registers no handle, or it registers one handle, with the next id and at the end of
  -- `ptyHandles`, that keeps the names of both ends, the name of the call with `-in` and `-out`; then it
  -- replies with that id and the names of the input and the output end, or with an error all the same.
  pub conpty_spawn-Ending :
      (args : SpawnArgs) (s : State)
      → ReportsErrors a
      → Ending e a (u.to_wstring args.pipe_name) s (outcome (spawn_with e u a args s))
  unfolding spawn_with
  conpty_spawn-Ending args s r =
      elim (Bool-cases (
        not (is_empty (shell_path e u a (u.to_wstring args.file)))
        && u.file_exists (shell_path e u a (u.to_wstring args.file)))) [
          | inr missing ↦ rw missing (inl (refl, (_, refl), inl refl))
          | inl there ↦ rw there (spawn_then args s _ (launch-Launched e u a args s r))
        ]
