-- ===== src/Win/Conpty/Threads/Writing.antt =====
-- The mutex of a handle of c_src/win/conpty.cc, over all runs.
use ex_pty.Prelude.{ℕ, ◌≡◌, refl, Bool, true, false, ◌&&◌, ◌||◌, none, some, List, [], ◌∷◌, arith}
use ex_pty.Win.Conpty.Threads.Defs.{
  Caller, Shell, Label, moved, writer_step, reader_step, caller_step, exit_step, step, started, Run,
}

-- A `WriteFile` of the run has failed.
abbrev pub has_failed : List Label → Bool
has_failed [] = false
has_failed (Label.writes none ∷ ls) = true
has_failed (_ ∷ ls) = has_failed ls

-- A call has locked the mutex, and has not unlocked it.
abbrev pub is_inside : Caller → Bool
is_inside (Caller.writing text) = true
is_inside Caller.unlocking = true
is_inside _ = false

abbrev failed_by : Label → Bool → Bool
failed_by (Label.writes none) w = true
failed_by _ w = w

-- The state of the mutex, given whether a write has failed. Behind a failure no call is inside.
abbrev Locked : Bool → Shell → Type 0
Locked w c = (c.locked ≡ (w || is_inside c.caller)) × (w && is_inside c.caller ≡ false)

step-Locked :
    (l : Label) (c c' : Shell) (w : Bool)
    → Locked w c
    → step l c ≡ moved c'
    → Locked (failed_by l w) c'
unfolding step writer_step reader_step caller_step exit_step
step-Locked Label.checks c c' w i h = ground arith
step-Locked (Label.opens none) c c' w i h = ground arith
step-Locked (Label.opens (some pipe)) c c' w i h = ground arith
step-Locked Label.stores c c' w i h = ground arith
step-Locked Label.enables c c' w i h = ground arith
step-Locked (Label.opens_reading none) c c' w i h = ground arith
step-Locked (Label.opens_reading (some pipe)) c c' w i h = ground arith
step-Locked (Label.reads []) c c' w i h = ground arith
step-Locked (Label.reads (b ∷ bytes)) c c' w i h = ground arith
step-Locked (Label.allocates false) c c' w i h = ground arith
step-Locked (Label.allocates true) c c' w i h = ground arith
step-Locked Label.sends c c' w i h = ground arith
step-Locked (Label.calls text) c c' w i h = ground arith
step-Locked Label.locks c c' w i h = ground arith
step-Locked (Label.writes none) c c' w i h = ground arith
step-Locked (Label.writes (some n)) c c' w i h = ground arith
step-Locked Label.unlocks c c' w i h = ground arith
step-Locked Label.fires c c' w i h = ground arith
step-Locked (Label.exits code) c c' w i h = ground arith
step-Locked Label.reports c c' w i h = ground arith
step-Locked Label.destroys c c' w i h = ground arith
step-Locked Label.frees c c' w i h = ground arith
step-Locked Label.clears c c' w i h = ground arith

failed_by-first : (l : Label) (ls : List Label) → failed_by l (has_failed ls) ≡ has_failed (l ∷ ls)
failed_by-first l ls = ground arith

Run-Locked :
    {ls : List Label} {c c' : Shell} → Run ls c c' → Locked false c → Locked (has_failed ls) c'
Run-Locked Run.stay i = i
Run-Locked (Run.go {labels} {c} {c'} {c''} l r s) i =
    rw (← failed_by-first l labels) (step-Locked l c' c'' (has_failed labels) (Run-Locked r i) s)

-- In every run at a handle the mutex is held exactly if a call is between its locking and its
-- unlocking, or a `WriteFile` has failed; behind a failure no call ever gets inside again.
pub Run-locked :
    (p : ℕ) {ls : List Label} {c : Shell}
    → Run ls (started p) c
    → (c.locked ≡ (has_failed ls || is_inside c.caller))
      × (has_failed ls && is_inside c.caller ≡ false)
Run-locked p r = Run-Locked r (refl, refl)
