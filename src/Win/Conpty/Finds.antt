-- ===== src/Win/Conpty/Finds.antt =====
-- The ids that `expty_spawn` of c_src/win/conpty.cc gives out, and the handles that they find.
use ex_pty.Prelude.{
  ℕ, ◌+◌, ◌<◌, ◌≤◌, ◌^◌, ◌≡◌, ◌⊎◌, inl, inr, ap, some, List, [], ◌∷◌, ℤ, arith, if◌then◌else◌,
  ◌==ℤ◌,
}
use ex_pty.Enif.{Enif}
use ex_pty.Win.Path.{Wide}
use ex_pty.Win.PathUtil.{PathUtil}
use ex_pty.Win.Conpty.State.{Api, Baton, State, increment, get_pty_baton}
use ex_pty.Win.Conpty.Step.{returned, outcome}
use ex_pty.Win.Conpty.Numbered.{Rising, IsNumbered, register-IsNumbered}
use ex_pty.Win.Conpty.Spawn.{SpawnArgs, spawn_with}
use ex_pty.Win.Conpty.Ending.{ReportsErrors, Registered, Ending, conpty_spawn-Ending}

Rising-mono :
    (low high top : ℕ) (handles : List Baton)
    → high ≤ top
    → Rising low high handles
    → Rising low top handles
Rising-mono low high top [] le r = omega arith
Rising-mono low high top (b ∷ handles) le (n, id, lt, below, rest) =
    (n, id, lt, omega arith, Rising-mono n high top handles le rest)

-- No id finds another handle than before, but for the id of a handle that is new.
abbrev pub Finds : State → State → Type 0
Finds s s' =
    ((id : ℤ) → get_pty_baton id s'.handles ≡ get_pty_baton id s.handles)
    ⊎ ((b : Baton) × Registered s s' b
        × ((id : ℤ)
            → get_pty_baton id s'.handles
              ≡ (if b.id ==ℤ id then some b else get_pty_baton id s.handles)))

unchanged-IsNumbered :
    (s s' : State)
    → s.counter + 1 < 2 ^ 32
    → s'.handles ≡ s.handles
    → (s'.counter ≡ s.counter) ⊎ (s'.counter ≡ increment s.counter)
    → IsNumbered s
    → IsNumbered s'
unfolding increment
unchanged-IsNumbered s s' lt h (inl c) w = record {
  rising = rw (h, c) w.rising;
  bounded = omega (arith, c, w.bounded);
}
unchanged-IsNumbered s s' lt h (inr c) w = record {
  rising = rw h (Rising-mono 0 s.counter s'.counter s.handles (omega (arith, c)) w.rising);
  bounded = omega (arith, c);
}

Ending-Finds :
    (e : Enif) (a : Api) (name : Wide) (s : State) (t : e.Term) (s' : State)
    → s.counter + 1 < 2 ^ 32
    → IsNumbered s
    → Ending e a name s (returned t s')
    → IsNumbered s' × Finds s s'
Ending-Finds e a name s t s' lt w (inl (h, bad, c)) =
    (unchanged-IsNumbered s s' lt h c w, inl (λ id. ap (get_pty_baton id) h))
Ending-Finds e a name s t s' lt w (inr (b, r, conin, conout, reply)) =
    let (kept, finds) = register-IsNumbered s s' b w lt r.id r.handles r.counter in
    (kept, inr (b, r, finds))

-- As long as the counter does not wrap around, a call keeps the numbering of the handles: each has an id
-- of its own. The id of a handle that it has registered finds that handle, and every other id finds
-- what it found before.
pub spawn_with-IsNumbered :
    (e : Enif) (u : PathUtil) (a : Api) (args : SpawnArgs) (s : State) (t : e.Term) (s' : State)
    → ReportsErrors a
    → s.counter + 1 < 2 ^ 32
    → IsNumbered s
    → outcome (spawn_with e u a args s) ≡ returned t s'
    → IsNumbered s' × Finds s s'
spawn_with-IsNumbered e u a args s t s' r lt w h =
    Ending-Finds e a (u.to_wstring args.pipe_name) s t s' lt w
      (rw h at (conpty_spawn-Ending e u a args s r))
