-- ===== src/Unix/Together/Exclusion.antt =====
-- The mutex of a resource (c_src/unix/pty.cpp), over all runs of its threads and calls of `write`.
use ex_pty.Prelude.{ℕ, ◌≡◌, refl, Bool, true, false, Option, none, some, List, Bytes, arith, ◌==◌}
use ex_pty.Unix.Sys.{update}
use ex_pty.Unix.Threads.Defs.{Label, Child, Move, moved, undefined, blocked, step}
use ex_pty.Unix.Together.Defs.{
  Place, checking, writing, unlocking, Shared, Action, Turn, thread, writer, next, stuck, fault,
  write_step, writer_step, turn, opened, Run,
}

abbrev pub is_inside : Place → Bool
is_inside checking = true
is_inside writing = true
is_inside unlocking = true
is_inside _ = false

abbrev pub holds : Option ℕ → ℕ → Bool
holds none i = false
holds (some j) i = j == i

-- Exactly the holder of the mutex is inside.
abbrev pub Exclusive : Shared → Type 0
Exclusive s = (i : ℕ) → is_inside (s.writers i).place ≡ holds s.holder i

pub turn-Exclusive : (t : Turn) (s s' : Shared) → Exclusive s → turn t s ≡ next s' → Exclusive s'
unfolding turn writer_step write_step update
turn-Exclusive (thread l) s s' x h j = ground (arith, x j)
turn-Exclusive (writer i Action.enters) s s' x h j = ground (arith, x i, x j)
turn-Exclusive (writer i Action.locks) s s' x h j = ground (arith, x i, x j)
turn-Exclusive (writer i Action.checks) s s' x h j = ground (arith, x i, x j)
turn-Exclusive (writer i Action.unlocks) s s' x h j = ground (arith, x i, x j)
turn-Exclusive (writer i (Action.writes r)) s s' x h j = ground (arith, x i, x j)

-- A turn of a thread is a step of the child.
pub turn-step :
    (l : Label) (s s' : Shared)
    → turn (thread l) s ≡ next s'
    → (c : Child) × (step l s.child ≡ moved c) × (s' ≡ record s { child = c })
unfolding turn
turn-step l s s' h = go (step l s.child) refl h
  where
    go :
        (m : Move)
        → step l s.child ≡ m
        → elim m [ blocked ↦ stuck | undefined ↦ fault | moved c ↦ next (record s { child = c }) ]
          ≡ next s'
        → (c : Child) × (step l s.child ≡ moved c) × (s' ≡ record s { child = c })
    go blocked e q = absurd (ground arith)
    go undefined e q = absurd (ground arith)
    go (moved c) e q = (c, e, ground arith)

-- A turn of a call leaves the child alone.
pub turn-child :
    (i : ℕ) (a : Action) (s s' : Shared) → turn (writer i a) s ≡ next s' → s'.child ≡ s.child
unfolding turn writer_step write_step
turn-child i a s s' h = ground arith

Run-Exclusive : {ts : List Turn} {s s' : Shared} → Run ts s s' → Exclusive s → Exclusive s'
Run-Exclusive Run.stay x = x
Run-Exclusive (Run.go {turns} {s} {s'} {s''} t r e) x =
    turn-Exclusive t s' s'' (Run-Exclusive r x) e

pub opened-Exclusive : (fd p pid : ℕ) (texts : ℕ → Bytes) → Exclusive (opened fd p pid texts)
opened-Exclusive fd p pid texts i = refl
