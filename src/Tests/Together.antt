-- ===== src/Tests/Together.antt =====
-- Two calls of `write` while the program ends.
use ex_pty.Prelude.{
  ℕ, ◌≤◌, ◌≡◌, ◌⊎◌, refl, true, false, some, List, [], ◌∷◌, Bytes, pos, length, take, arith,
}
use ex_pty.Unix.Sys.{update}
use ex_pty.Unix.Threads.Defs.{Label, step, reader_step}
use ex_pty.Unix.Together.Defs.{
  Shared, Action, Turn, thread, writer, opened, Run, turn, write_step, writer_step, is_closed,
}
use ex_pty.Unix.Together.Exclusion.{is_inside, holds}
use ex_pty.Unix.Together.Late.{late_count, gone_count, Run-late}
use ex_pty.Unix.Together.Blocks.{is_contiguous, taken_for, is_ending, Run-contiguous}

abbrev texts : ℕ → Bytes
texts i = 0x6c ∷ 0x73 ∷ []

-- The first call is behind its test when the reading thread closes the descriptor.
abbrev turns : List Turn
turns =
    writer 1 Action.unlocks
    ∷ writer 1 Action.checks
    ∷ writer 1 Action.locks
    ∷ writer 0 Action.unlocks
    ∷ writer 0 (Action.writes (pos 2))
    ∷ thread Label.closes
    ∷ thread (Label.reads (some []))
    ∷ thread (Label.selects (some true))
    ∷ thread Label.tests
    ∷ writer 0 Action.checks
    ∷ writer 0 Action.locks
    ∷ writer 1 Action.enters
    ∷ writer 0 Action.enters
    ∷ []

ran : (s : Shared) × Run turns (opened 10 3 4242 texts) s
unfolding turn writer_step write_step update step reader_step
ran = (
  _,
  Run.go _
      (Run.go _
        (Run.go _
          (Run.go _
            (Run.go _
              (Run.go _
                (Run.go _
                  (Run.go _
                    (Run.go _
                      (Run.go _ (Run.go _ (Run.go _ (Run.go _ Run.stay refl) refl) refl) refl) refl)
                    refl)
                  refl)
                refl)
              refl)
            refl)
          refl)
        refl)
      refl,
)

-- The bound is reached.
gone_lem : gone_count (ran.0).trace ≡ 1
unfolding ran turn writer_step write_step update step reader_step
gone_lem = refl

Run-late_example :
    (late_count (ran.0).trace ≤ 1) × (gone_count (ran.0).trace ≤ late_count (ran.0).trace)
Run-late_example = Run-late 10 3 4242 texts (ran.1)

Run-contiguous_example :
    (is_contiguous (ran.0).trace ≡ true)
    × (taken_for 0 (ran.0).trace ≡ take ((ran.0).writers 0).progress.bytes_written (texts 0))
    × (is_inside ((ran.0).writers 0).place ≡ holds (ran.0).holder 0)
    × ((is_ending ((ran.0).writers 0).place ≡ false)
        ⊎ ((((ran.0).writers 0).progress.bytes_written ≡ length (texts 0))
            ⊎ (is_closed (ran.0).child ≡ true)))
Run-contiguous_example = Run-contiguous texts 10 3 4242 0 (λ j. omega arith) (ran.1)

-- The steps up to where the first call holds the mutex, and the second waits for it.
abbrev first_turns : List Turn
first_turns =
    writer 0 Action.locks
    ∷ writer 1 Action.enters
    ∷ thread Label.tests
    ∷ writer 0 Action.enters
    ∷ []
