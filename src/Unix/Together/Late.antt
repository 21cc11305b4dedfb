-- ===== src/Unix/Together/Late.antt =====
-- What calls of `write` (c_src/unix/pty.cpp) do to a descriptor that the reading thread has closed.
use ex_pty.Prelude.{ℕ, ◌+◌, ◌≤◌, ◌≡◌, refl, Bool, true, false, ◌||◌, List, [], ◌∷◌, Bytes, arith}
use ex_pty.Unix.Sys.{update}
use ex_pty.Unix.Threads.Defs.{
  Reader, Child, Label, moved, step, reader_step, waiter_step, loop_step,
}
use ex_pty.Unix.Together.Defs.{
  Place, Taken, Shared, Action, Turn, thread, writer, next, is_closed, is_gone, write_step,
  writer_step, turn, opened, Run,
}
use ex_pty.Unix.Together.Exclusion.{Exclusive, turn-step, turn-Exclusive, opened-Exclusive}

abbrev is_closing : Reader → Bool
is_closing Reader.closing = true
is_closing _ = false

-- The flag is set before the descriptor is closed.
abbrev Flagged : Child → Type 0
Flagged c = (is_closing c.reader || is_gone c.trace ≡ true) → is_closed c ≡ true

step-Flagged : (l : Label) (c c' : Child) → Flagged c → step l c ≡ moved c' → Flagged c'
unfolding step reader_step waiter_step loop_step
step-Flagged l c c' f h g = ground (arith, f)

-- The flag stays set.
pub step-is_closed :
    (l : Label) (c c' : Child) → is_closed c ≡ true → step l c ≡ moved c' → is_closed c' ≡ true
unfolding step reader_step waiter_step loop_step
step-is_closed l c c' f h = ground arith

abbrev one_if : Bool → ℕ
one_if true = 1
one_if false = 0

-- The calls of the system that have taken bytes behind the setting of the flag, and behind the close.
abbrev pub late_count : List Taken → ℕ
late_count [] = 0
late_count (t ∷ ts) = one_if t.late + late_count ts

abbrev pub gone_count : List Taken → ℕ
gone_count [] = 0
gone_count (t ∷ ts) = one_if t.gone + gone_count ts

abbrev is_writing : Place → Bool
is_writing Place.writing = true
is_writing _ = false

-- As long as the flag is not set, or a call is before its `::write`, there is no late one.
abbrev Few : Shared → Type 0
Few s =
    Flagged s.child
    × (late_count s.trace ≤ one_if (is_closed s.child))
    × (gone_count s.trace ≤ late_count s.trace)
    × ((i : ℕ) → is_writing (s.writers i).place ≡ true → late_count s.trace ≡ 0)

thread-Few :
    (l : Label) (s : Shared) (c : Child)
    → Few s
    → step l s.child ≡ moved c
    → Few (record s { child = c })
thread-Few l s c (f, n, g, w) e =
    (step-Flagged l s.child c f e, ground (arith, step-is_closed l s.child c), g, w)

turn-Few : (t : Turn) (s s' : Shared) → Exclusive s → Few s → turn t s ≡ next s' → Few s'
unfolding turn writer_step write_step update
turn-Few (thread l) s s' x (f, n, g, w) h =
    let (c, e, q) = turn-step l s s' h in rw q (thread-Few l s c (f, n, g, w) e)
turn-Few (writer i Action.enters) s s' x (f, n, g, w) h =
    (ground arith, ground arith, ground arith, λ j p. ground (arith, w j))
turn-Few (writer i Action.locks) s s' x (f, n, g, w) h =
    (ground arith, ground arith, ground arith, λ j p. ground (arith, w j))
turn-Few (writer i Action.checks) s s' x (f, n, g, w) h =
    (ground arith, ground arith, ground arith, λ j p. ground (arith, w j))
turn-Few (writer i Action.unlocks) s s' x (f, n, g, w) h =
    (ground arith, ground arith, ground arith, λ j p. ground (arith, w j))
turn-Few (writer i (Action.writes r)) s s' x (f, n, g, w) h = (
  ground arith,
  ground (arith, w i),
  ground (arith, w i),
  λ j p. ground (arith, w i, w j, x i, x j),
)

Run-Few :
    {ts : List Turn} {s s' : Shared} → Run ts s s' → Exclusive s × Few s → Exclusive s' × Few s'
Run-Few Run.stay i = i
Run-Few (Run.go {turns} {s} {s'} {s''} t r e) i =
    let (x, few) = Run-Few r i in (turn-Exclusive t s' s'' x e, turn-Few t s' s'' x few e)

-- In every run of the threads of a child and of any calls of `write` for it, at most one call of the
-- system writes behind the setting of `fd_closed`, and so at most one to a descriptor that the reading
-- thread has closed and whose number may be somebody else's.
pub Run-late :
    (fd p pid : ℕ) (texts : ℕ → Bytes) {ts : List Turn} {s : Shared}
    → Run ts (opened fd p pid texts) s
    → (late_count s.trace ≤ 1) × (gone_count s.trace ≤ late_count s.trace)
Run-late fd p pid texts {ts} {s} r =
    let (x, (f, n, g, w)) = Run-Few r (
      opened-Exclusive fd p pid texts,
      ((λ h. absurd (ground arith)), omega arith, omega arith, (λ i h. refl)),
    ) in
    (ground arith, g)
