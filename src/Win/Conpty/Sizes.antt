-- ===== src/Win/Conpty/Sizes.antt =====
-- `expty_resize` of c_src/win/conpty.cc: which console it resizes, and its replies.
use ex_pty.Prelude.{
  ℕ, ◌<◌, ◌^◌, ◌≡◌, ◌⊎◌, inl, inr, refl, true, false, some, List, [], ◌∷◌, ℤ, pos, arith, codes,
  Bool-cases,
}
use ex_pty.Enif.{Enif}
use ex_pty.Nif.Make.{atom, error}
use ex_pty.Nif.Scalars.{get_int}
use ex_pty.Win.Consoles.{short, short_iff}
use ex_pty.Win.Conpty.State.{Event, Coord, History, Api, Baton, State, get_pty_baton}
use ex_pty.Win.Conpty.Step.{returned, outcome}
use ex_pty.Win.Conpty.Ending.{IsError}
use ex_pty.Win.Conpty.Handlers.{expty_resize, resize_with}

-- The consoles that were given a size, the newest first.
abbrev pub resized : History → List (ℕ × Coord)
resized [] = []
resized (Event.resize_console hpc size ∷ h) = (hpc, size) ∷ resized h
resized (_ ∷ h) = resized h

-- The console has the size, or none has, and the reply is an error.
abbrev pub Sized : (e : Enif) → ℕ → Coord → State → e.Term → State → Type 0
Sized e hpc size s t s' =
    (s'.handles ≡ s.handles)
    × (((t ≡ atom e (codes "ok")) × (resized s'.trace ≡ (hpc, size) ∷ resized s.trace))
        ⊎ (IsError e t × (resized s'.trace ≡ resized s.trace)))

module _ (e : Enif) (a : Api) where
  resize_with-Sized :
      (s : State) (id cols rows : ℤ) (b : Baton)
      → get_pty_baton id s.handles ≡ some b
      → (t : e.Term) × (s' : State) × (outcome (resize_with e a id cols rows s) ≡ returned t s')
        × Sized e b.hpc (record { x = short cols; y = short rows }) s t s'
  unfolding resize_with
  resize_with-Sized s id cols rows b f =
      let h1 : History = Event.load_library true ∷ s.trace in
      let h2 : History = Event.find_function true ∷ h1 in
      let size : Coord = record { x = short cols; y = short rows } in
      elim (Bool-cases (a.load_library s.trace)) [
        | inr missing ↦ (
          error e (codes "cannot load kernel32.dll"),
          record s { trace = Event.load_library false ∷ s.trace },
          rw (f, missing, outcome) refl,
          (refl, inr ((_, refl), refl)),
        )
        | inl loaded ↦ elim (Bool-cases (a.find_function h1)) [
          | inr missing ↦ (
            error e (codes "cannot find function ResizePseudoConsole"),
            record s { trace = Event.find_function false ∷ h1 },
            rw (f, loaded, missing, outcome) refl,
            (refl, inr ((_, refl), refl)),
          )
          | inl found ↦ (
            atom e (codes "ok"),
            record s { trace = Event.resize_console b.hpc size ∷ h2 },
            rw (f, loaded, found, outcome) refl,
            (refl, inl (refl, refl)),
          )
        ]
      ]

  -- A call with a size that a COORD holds, for a handle that is there, returns and keeps the handles. It
  -- gives the console of the handle that size and replies `ok`, or it gives no console a size and replies
  -- an error.
  pub expty_resize-Sized :
      (argv : ℕ → e.Term) (s : State) (id : ℤ) (cols rows : ℕ) (b : Baton)
      → get_int e (argv 0) ≡ some id
      → get_int e (argv 1) ≡ some (pos cols)
      → get_int e (argv 2) ≡ some (pos rows)
      → 0 < cols
      → cols < 2 ^ 15
      → 0 < rows
      → rows < 2 ^ 15
      → get_pty_baton id s.handles ≡ some b
      → (t : e.Term) × (s' : State) × (expty_resize e a argv s ≡ returned t s')
        × Sized e b.hpc (record { x = pos cols; y = pos rows }) s t s'
  unfolding expty_resize
  expty_resize-Sized argv s id cols rows b i c r c0 c15 r0 r15 f =
      let (t, s', q, z) = resize_with-Sized s id (pos cols) (pos rows) b f in
      let x : short (pos cols) ≡ pos cols = (short_iff cols).1 c15 in
      let y : short (pos rows) ≡ pos rows = (short_iff rows).1 r15 in
      (t, s', ground (arith, q), rw (x, y) at z)
