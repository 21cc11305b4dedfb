-- ===== src/Unix/Write/Ends.antt =====
-- When `pty_pipesocket::write` (c_src/unix/pty.cpp) is sure to return.
use ex_pty.Prelude.{
  ℕ, zero, suc, ◌+◌, ◌*◌, ◌≤◌, ◌<◌, ◌≡◌, ◌≢◌, inl, inr, refl, ap, ◌∙◌, false, Option, none, some,
  ◌∷◌, Bytes, ltb, ◌==◌, length, drop, arith, length-take, length-drop, Bool-cases, is_positive,
}
use mathlib.Core.Path.{ap₂}
use ex_pty.Unix.Sys.{Event, Kernel, Pipesocket, Baton, Sys, History, returned, log}
use ex_pty.Unix.Handlers.Defs.{baton_of, fd_of}
use ex_pty.Unix.Write.Defs.{
  size_max, Progress, chunk_size, chunk, advance, back_off, sees_closed, write_loop, start,
  unlocked, write,
}
use ex_pty.Unix.Write.Rounds.{
  ℤ-cases, reply, behind, round_closed, round_stalled, round_finished, round_goes_on, stalled_state,
}
use ex_pty.Unix.Write.Prefix.{WritesWithin, IsProgress, length-chunk, advance-IsProgress}

-- A terminal that takes something of a text that is not empty after at most `bound` refusals in a
-- row: `patience` counts those that are left.
pub record Takes (k : Kernel) (bound : ℕ) : Type 0 where
  pub patience : History → ℕ
  pub bounded : (h : History) → patience h ≤ bound
  pub takes :
      (h : History) (fd : ℕ) (bytes : Bytes)
      → 0 < length bytes
      → is_positive (k.write h fd bytes) ≡ false
      → (patience (Event.write fd bytes (k.write h fd bytes) ∷ h) < patience h)
        × (patience (Event.usleep 10 ∷ Event.write fd bytes (k.write h fd bytes) ∷ h) < patience h)

ne_of_test : (a b : ℕ) → (a == b) ≡ false → a ≢ b
ne_of_test a b h = ground arith

abbrev pub follow : ℕ → (ℕ → Pipesocket) → (ℕ → Option Baton) → Option Baton
follow socket sockets batons = elim ((sockets socket).baton) [ none ↦ none | some b ↦ batons b ]

pub same_baton :
    (s s' : Sys) (socket : ℕ)
    → s'.sockets ≡ s.sockets
    → s'.batons ≡ s.batons
    → baton_of s' socket ≡ baton_of s socket
same_baton s s' socket p q = ap₂ (follow socket) p q

-- The rounds that are left fall by `bound + 1` at least with each byte.
shorter :
    (left whole n bound p q fuel : ℕ)
    → left + n ≡ whole
    → p ≤ bound
    → whole * (bound + 1) + q < suc fuel
    → 0 < n
    → left * (bound + 1) + p < fuel
shorter left whole n bound p q fuel e le lt h = grind (arith, ap (λ (x : ℕ). x * (bound + 1)) e)

module _ (k : Kernel) (socket : ℕ) (text : Bytes) (within : WritesWithin k) (bound : ℕ)
    (takes : Takes k bound) where
  open takes use {patience, bounded}

  chunk-pos : (w : Progress) → IsProgress text w → 0 < w.bytes_to_write → 0 < length (chunk text w)
  chunk-pos w h lt = ground (
    arith,
    length-take (chunk_size w) (drop w.bytes_written text),
    length-drop w.bytes_written text,
  )

  patience_stalled :
      (w : Progress) (s : Sys)
      → 0 < length (chunk text w)
      → is_positive (reply k socket text w s) ≡ false
      → patience ((back_off w (behind k socket text w s)).1.trace) < patience s.trace
  unfolding log
  patience_stalled w s lt h =
      let less = takes.takes s.trace (fd_of s socket) (chunk text w) lt h in
      elim (Bool-cases (ltb 0 w.retry)) [
        | inl more ↦ rw more (less.1)
        | inr last ↦ rw last (less.0)
      ]

  pub write_loop-returns :
      (fuel : ℕ) (w : Progress) (s : Sys) (b : Baton)
      → IsProgress text w
      → 0 < w.bytes_to_write
      → baton_of s socket ≡ some b
      → w.bytes_to_write * (bound + 1) + patience s.trace < fuel
      → (n : ℕ) × (s' : Sys) × (write_loop k socket text fuel w s ≡ returned n s')
  write_loop-returns zero w s b h lt there enough = absurd (omega arith)
  write_loop-returns (suc fuel) w s b h lt there enough = elim (Bool-cases (sees_closed k b s)) [
    | inl closed ↦ (w.bytes_written, s, round_closed k socket text w s fuel b there closed)
    | inr open_ ↦ elim (ℤ-cases (reply k socket text w s)) [
      | inr stalled ↦
          let kept = stalled_state k socket text w s 0 stalled in
          let less = patience_stalled w s (chunk-pos w h lt) stalled in
          let (n, s', e) =
            write_loop-returns fuel (back_off w (behind k socket text w s)).0
              (back_off w (behind k socket text w s)).1 b h lt
              (same_baton s (back_off w (behind k socket text w s)).1 socket kept.0 kept.1 ∙ there)
              (omega (arith, less, enough)) in
          (n, s', round_stalled k socket text w s fuel b there open_ stalled ∙ e)
      | inl (m, took) ↦
          let fits = within s.trace (fd_of s socket) (chunk text w) (suc m) took in
          let moved = advance-IsProgress text w (suc m) h (omega (arith, length-chunk text w h)) in
          let left : (advance w (suc m)).bytes_to_write + suc m ≡ w.bytes_to_write =
            omega (arith, moved.2, fits, length-chunk text w h) in
          elim (Bool-cases ((advance w (suc m)).bytes_written == length text)) [
            | inl done ↦ (
              length text,
              behind k socket text w s,
              round_finished k socket text w s fuel b there open_ m took done,
            )
            | inr more ↦
                let (n, s', e) =
                  write_loop-returns fuel (advance w (suc m)) (behind k socket text w s) b moved.0
                    (omega (arith, ne_of_test _ _ more, moved.0.0)) there
                    (shorter _ _ (suc m) bound _ _ fuel left (bounded _) enough (omega arith)) in
                (n, s', round_goes_on k socket text w s fuel b there open_ m took more ∙ e)
          ]
    ]
  ]

  -- A terminal that keeps taking bytes, if not at every call, is written to within a bounded number of
  -- rounds: with this fuel a `write` of a text that is not empty returns.
  pub write-returns :
      (fuel : ℕ) (s : Sys) (b : Baton)
      → 0 < length text
      → length text < size_max
      → baton_of s socket ≡ some b
      → length text * (bound + 1) + bound < fuel
      → (n : ℕ) × (s' : Sys) × (write k socket text fuel s ≡ returned n s')
  unfolding write log unlocked
  write-returns fuel s b lt small there enough = elim (Bool-cases (sees_closed k b s)) [
    | inl closed ↦ (0, s, rw (there, closed, write))
    | inr open_ ↦
        let locked : Sys = record s { trace = Event.mutex_lock socket ∷ s.trace } in
        let (n, s', e) =
          write_loop-returns fuel (start k socket text) locked b (omega arith) lt there
            (omega (arith, bounded locked.trace, enough)) in
        (n, log (Event.mutex_unlock socket) s', rw (there, open_, write, e) refl)
  ]
