-- ===== src/Unix/Together/Blocks.antt =====
-- What the terminal takes from calls of `write` (c_src/unix/pty.cpp) that run at the same time.
use ex_pty.Prelude.{
  ℕ, zero, suc, ◌≤◌, ◌<◌, ◌≡◌, ◌⊎◌, inl, inr, refl, Bool, true, false, not, ◌||◌, ◌&&◌, List, [],
  ◌∷◌, ◌++◌, ℤ, pos, negsuc, Bytes, arith, if◌then◌else◌, ◌==◌, take, length, ltb, Bool-cases,
}
use ex_pty.Unix.Sys.{update}
use ex_pty.Unix.Write.Defs.{size_max, chunk}
use ex_pty.Unix.Write.Prefix.{IsProgress, length-chunk, advance-IsProgress, take-chunk}
use ex_pty.Unix.Together.Defs.{
  Place, entering, locking, unlocking, done, Taken, Shared, Action, Turn, thread, writer, next,
  is_closed, write_step, writer_step, turn, opened, Run,
}
use ex_pty.Unix.Together.Late.{step-is_closed}
use ex_pty.Unix.Together.Exclusion.{
  is_inside, holds, Exclusive, turn-step, turn-Exclusive, opened-Exclusive,
}

abbrev pub occurs : ℕ → List Taken → Bool
occurs i [] = false
occurs i (t ∷ ts) = (t.by == i) || occurs i ts

abbrev pub is_last : ℕ → List Taken → Bool
is_last i [] = false
is_last i (t ∷ ts) = t.by == i

-- What was taken for each call was taken at a stretch.
abbrev pub is_contiguous : List Taken → Bool
is_contiguous [] = true
is_contiguous (t ∷ ts) = (is_last t.by ts || not (occurs t.by ts)) && is_contiguous ts

abbrev is_early : Place → Bool
is_early entering = true
is_early locking = true
is_early _ = false

abbrev Blocked : Shared → Type 0
Blocked s =
    (is_contiguous s.trace ≡ true)
    × ((i : ℕ) → is_early (s.writers i).place ≡ true → occurs i s.trace ≡ false)
    × ((i : ℕ)
        → is_inside (s.writers i).place ≡ true
        → (is_last i s.trace || not (occurs i s.trace)) ≡ true)

turn-Blocked :
    (t : Turn) (s s' : Shared) → Exclusive s → Blocked s → turn t s ≡ next s' → Blocked s'
unfolding turn writer_step write_step update
turn-Blocked (thread l) s s' x (k, e, n) h = let (c, _, q) = turn-step l s s' h in rw q (k, e, n)
turn-Blocked (writer i Action.enters) s s' x (k, e, n) h =
    (ground arith, (λ j p. ground (arith, e i, e j)), (λ j p. ground (arith, n j)))
turn-Blocked (writer i Action.locks) s s' x (k, e, n) h =
    (ground arith, (λ j p. ground (arith, e j)), (λ j p. ground (arith, n j, e i)))
turn-Blocked (writer i Action.checks) s s' x (k, e, n) h =
    (ground arith, (λ j p. ground (arith, e j)), (λ j p. ground (arith, n i, n j)))
turn-Blocked (writer i Action.unlocks) s s' x (k, e, n) h =
    (ground arith, (λ j p. ground (arith, e j)), (λ j p. ground (arith, n j)))
turn-Blocked (writer i (Action.writes r)) s s' x (k, e, n) h =
    (ground (arith, n i), (λ j p. ground (arith, e j)), (λ j p. ground (arith, n i, n j, x i, x j)))

-- What was taken for a call, the oldest first.
abbrev pub taken_for : ℕ → List Taken → Bytes
taken_for i [] = []
taken_for i (t ∷ ts) = if t.by == i then taken_for i ts ++ t.bytes else taken_for i ts

-- The text of a call, as far as the call has come.
abbrev Told : (ℕ → Bytes) → Shared → Type 0
Told texts s =
    (i : ℕ)
    → ((s.writers i).text ≡ texts i)
      × IsProgress (texts i) (s.writers i).progress
      × (taken_for i s.trace ≡ take (s.writers i).progress.bytes_written (texts i))

turn-write_step :
    (i : ℕ) (r : ℤ) (s s' : Shared)
    → turn (writer i (Action.writes r)) s ≡ next s'
    → write_step i (s.writers i) r s ≡ next s'
unfolding turn writer_step
turn-write_step i r s s' h = ground arith

abbrev pub is_ending : Place → Bool
is_ending unlocking = true
is_ending done = true
is_ending _ = false

-- A call ends behind its whole text, or behind a test that has seen the flag.
abbrev pub Ended : Shared → Type 0
Ended s =
    (i : ℕ)
    → (is_ending (s.writers i).place ≡ false)
      ⊎ (((s.writers i).progress.bytes_written ≡ length (s.writers i).text)
          ⊎ (is_closed s.child ≡ true))

turn-Ended : (t : Turn) (s s' : Shared) → Ended s → turn t s ≡ next s' → Ended s'
unfolding turn writer_step write_step update
turn-Ended (thread l) s s' f h i =
    let (c, e, q) = turn-step l s s' h in ground (arith, f i, step-is_closed l s.child c)
turn-Ended (writer i Action.enters) s s' f h j = ground (arith, f j)
turn-Ended (writer i Action.locks) s s' f h j = ground (arith, f j)
turn-Ended (writer i Action.checks) s s' f h j = ground (arith, f j)
turn-Ended (writer i Action.unlocks) s s' f h j = ground (arith, f i, f j)
turn-Ended (writer i (Action.writes r)) s s' f h j = ground (arith, f j)

module _ (texts : ℕ → Bytes) where
  write-Told :
      (i n : ℕ) (s s' : Shared)
      → Told texts s
      → write_step i (s.writers i) (pos (suc n)) s ≡ next s'
      → Told texts s'
  unfolding write_step update
  write-Told i n s s' told h j =
      let w = s.writers i in
      let (same, count, so_far) = told i in
      elim (Bool-cases (ltb (length (chunk w.text w.progress)) (suc n))) [
        | inl more ↦ absurd (ground arith)
        | inr fits ↦
            let le : suc n ≤ length (chunk (texts i) w.progress) = ground (arith, same) in
            let moved =
              advance-IsProgress (texts i) w.progress (suc n) count
                (omega (arith, length-chunk (texts i) w.progress count)) in
            let longer = take-chunk (texts i) w.progress (suc n) le in
            ground (arith, told j, same, moved, longer)
      ]

  turn-Told : (t : Turn) (s s' : Shared) → Told texts s → turn t s ≡ next s' → Told texts s'
  unfolding turn writer_step write_step update
  turn-Told (thread l) s s' told h j = let (c, _, q) = turn-step l s s' h in rw q (told j)
  turn-Told (writer i Action.enters) s s' told h j = ground (arith, told i, told j)
  turn-Told (writer i Action.locks) s s' told h j = ground (arith, told i, told j)
  turn-Told (writer i Action.checks) s s' told h j = ground (arith, told i, told j)
  turn-Told (writer i Action.unlocks) s s' told h j = ground (arith, told i, told j)
  turn-Told (writer i (Action.writes (negsuc n))) s s' told h j = ground (arith, told i, told j)
  turn-Told (writer i (Action.writes (pos zero))) s s' told h j = ground (arith, told i, told j)
  turn-Told (writer i (Action.writes (pos (suc n)))) s s' told h j =
      write-Told i n s s' told (turn-write_step i (pos (suc n)) s s' h) j

  Run-Told :
      {ts : List Turn} {s s' : Shared}
      → Run ts s s'
      → Exclusive s × Blocked s × Told texts s × Ended s
      → Exclusive s' × Blocked s' × Told texts s' × Ended s'
  Run-Told Run.stay i = i
  Run-Told (Run.go {turns} {s} {s'} {s''} t r e) i =
      let (x, k, told, f) = Run-Told r i in
      (
        turn-Exclusive t s' s'' x e,
        turn-Blocked t s' s'' x k e,
        turn-Told t s' s'' told e,
        turn-Ended t s' s'' f e,
      )

  -- In every run of the threads of a child and of any calls of `write` for it, with texts of fewer than
  -- 2 ^ 64 bytes: what the terminal takes for each call it takes at a stretch, as the bytes of the text up
  -- to where the call has come; exactly the calls between their locking and their unlocking hold the mutex,
  -- so at most one; and a call that is behind its loop has written its whole text or seen the descriptor
  -- closed.
  pub Run-contiguous :
      (fd p pid i : ℕ) {ts : List Turn} {s : Shared}
      → ((j : ℕ) → length (texts j) < size_max)
      → Run ts (opened fd p pid texts) s
      → (is_contiguous s.trace ≡ true)
        × (taken_for i s.trace ≡ take (s.writers i).progress.bytes_written (texts i))
        × (is_inside (s.writers i).place ≡ holds s.holder i)
        × ((is_ending (s.writers i).place ≡ false)
            ⊎ (((s.writers i).progress.bytes_written ≡ length (texts i))
                ⊎ (is_closed s.child ≡ true)))
  Run-contiguous fd p pid i fit r =
      let (x, k, told, f) = Run-Told r (
        opened-Exclusive fd p pid texts,
        (refl, (λ i h. refl), (λ i h. refl)),
        (λ i. (refl, (omega arith, fit i), refl)),
        (λ i. inl refl),
      ) in
      (k.0, (told i).2, x i, rw (← (told i).0) (f i))
