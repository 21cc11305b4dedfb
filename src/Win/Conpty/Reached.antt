-- ===== src/Win/Conpty/Reached.antt =====
-- The states that the calls of c_src/win/conpty.cc reach, and the ids of their handles.
use ex_pty.Prelude.{ℕ, suc, ◌<◌, ◌≤◌, ◌^◌, ◌≡◌, refl, some, [], ℤ, arith, All}
use ex_pty.Enif.{Enif}
use ex_pty.Win.PathUtil.{PathUtil}
use ex_pty.Win.Conpty.State.{History, Api, Baton, State, get_pty_baton, modify}
use ex_pty.Win.Conpty.Step.{returned}
use ex_pty.Win.Conpty.Numbered.{IsNumbered, KeepsId, Rising-modify, Rising-found}
use ex_pty.Win.Conpty.Ending.{ReportsErrors}
use ex_pty.Win.Conpty.Spawn.{expty_spawn}
use ex_pty.Win.Conpty.Connect.{expty_pty_connect}
use ex_pty.Win.Conpty.Handlers.{expty_write, expty_resize}
use ex_pty.Win.Conpty.Kept.{
  Kept, expty_write-Returned, expty_resize-Returned, expty_pty_connect-Kept, expty_spawn-Kept,
}

-- The states that calls reach from the loading of the library, with the number of calls of `expty_spawn`. A
-- call that does not return has no state behind it. `assigns` is an assignment of a thread to a
-- handle, of which none changes the id.
pub data Reached (e : Enif) (u : PathUtil) (a : Api) (fuel : ℕ) : ℕ → State → Type 0 where
  loaded : (h : History) → Reached e u a fuel 0 (record { trace = h; handles = []; counter = 0 })
  spawns :
      {n : ℕ} {s s' : State} (argv : ℕ → e.Term) (t : e.Term)
      → Reached e u a fuel n s
      → expty_spawn e u a argv s ≡ returned t s'
      → Reached e u a fuel (suc n) s'
  connects :
      {n : ℕ} {s s' : State} (argv : ℕ → e.Term) (t : e.Term)
      → Reached e u a fuel n s
      → expty_pty_connect e u a fuel argv s ≡ some (returned t s')
      → Reached e u a fuel n s'
  writes :
      {n : ℕ} {s s' : State} (argv : ℕ → e.Term) (t : e.Term)
      → Reached e u a fuel n s
      → expty_write e a argv s ≡ returned t s'
      → Reached e u a fuel n s'
  resizes :
      {n : ℕ} {s s' : State} (argv : ℕ → e.Term) (t : e.Term)
      → Reached e u a fuel n s
      → expty_resize e a argv s ≡ returned t s'
      → Reached e u a fuel n s'
  assigns :
      {n : ℕ} {s : State} (f : Baton → Baton) (id : ℤ) (h : History)
      → KeepsId f
      → Reached e u a fuel n s
      → Reached e u a fuel n
          (record { trace = h; handles = modify f id s.handles; counter = s.counter })

of_Kept :
    (s s' : State) (n : ℕ)
    → IsNumbered s
    → s.counter ≤ n
    → Kept s.counter s'
    → IsNumbered s' × (s'.counter ≤ n)
of_Kept s s' n w le (rising, c) =
    (record { rising = rw c rising; bounded = omega (arith, w.bounded) }, omega arith)

-- In every state that at most 2 ^ 32 - 1 calls of `expty_spawn` and any other calls reach, where Windows
-- reports its errors, each handle is numbered by a call of its own.
pub Reached-IsNumbered :
    (e : Enif) (u : PathUtil) (a : Api) (fuel : ℕ) {n : ℕ} {s : State}
    → ReportsErrors a
    → n < 2 ^ 32
    → Reached e u a fuel n s
    → IsNumbered s × (s.counter ≤ n)
Reached-IsNumbered e u a fuel r lt (Reached.loaded h) =
    (record { rising = omega arith; bounded = omega arith }, omega arith)
Reached-IsNumbered e u a fuel r lt (Reached.spawns {n} {s} {s'} argv t q h) =
    let (w, le) = Reached-IsNumbered e u a fuel r (omega arith) q in
    let (w', le') = expty_spawn-Kept e u a fuel n argv s t s' r (omega arith) w h in
    (w', omega arith)
Reached-IsNumbered e u a fuel r lt (Reached.connects {n} {s} {s'} argv t q h) =
    let (w, le) = Reached-IsNumbered e u a fuel r lt q in
    of_Kept s s' n w le (expty_pty_connect-Kept e u a fuel s.counter argv s t s' (w.rising, refl) h)
Reached-IsNumbered e u a fuel r lt (Reached.writes {n} {s} {s'} argv t q h) =
    let (w, le) = Reached-IsNumbered e u a fuel r lt q in
    of_Kept s s' n w le
      (rw h at (expty_write-Returned e u a fuel s.counter argv s (w.rising, refl)))
Reached-IsNumbered e u a fuel r lt (Reached.resizes {n} {s} {s'} argv t q h) =
    let (w, le) = Reached-IsNumbered e u a fuel r lt q in
    of_Kept s s' n w le
      (rw h at (expty_resize-Returned e u a fuel s.counter argv s (w.rising, refl)))
Reached-IsNumbered e u a fuel r lt (Reached.assigns {n} {s} f id h k q) =
    let (w, le) = Reached-IsNumbered e u a fuel r lt q in
    (
      record { rising = Rising-modify f id 0 s.counter s.handles k w.rising; bounded = w.bounded },
      le,
    )

-- In every state that at most 2 ^ 32 - 1 calls of `expty_spawn` and any other calls reach, where Windows
-- reports its errors, every handle that was registered is found by its id.
pub Reached-found :
    (e : Enif) (u : PathUtil) (a : Api) (fuel : ℕ) {n : ℕ} {s : State}
    → ReportsErrors a
    → n < 2 ^ 32
    → Reached e u a fuel n s
    → All (λ b. get_pty_baton b.id s.handles ≡ some b) s.handles
Reached-found e u a fuel {n} {s} r lt q =
    let (w, le) = Reached-IsNumbered e u a fuel r lt q in
    Rising-found 0 s.counter s.handles w.bounded w.rising
