-- ===== src/Unix/Write/Rounds.antt =====
-- The cases of one round of the loop of `pty_pipesocket::write` (c_src/unix/pty.cpp).
use ex_pty.Prelude.{
  ℕ, suc, ◌≡◌, ◌⊎◌, inl, inr, refl, true, false, none, some, Bytes, ℤ, pos, negsuc, zero, ◌==◌,
  length, arith, is_positive, append-nil, ltb, Bool-cases, ◌∷◌, [], ◌++◌, take, if◌then◌else◌,
}
use ex_pty.Unix.Sys.{Event, Kernel, Baton, Sys, History, returned, undefined, log}
use ex_pty.Unix.Handlers.Defs.{baton_of, fd_of}
use ex_pty.Unix.Write.Defs.{Progress, chunk, advance, back_off, sees_closed, write_loop}

-- Either a call takes bytes, or it does not.
pub ℤ-cases : (r : ℤ) → ((n : ℕ) × (r ≡ pos (suc n))) ⊎ (is_positive r ≡ false)
ℤ-cases (pos zero) = inr (ground arith)
ℤ-cases (pos (suc n)) = inl (n, refl)
ℤ-cases (negsuc n) = inr refl

-- The bytes that a descriptor has taken, in order.
abbrev pub taken : ℕ → History → Bytes
taken fd [] = []
taken fd (Event.write other bytes (pos n) ∷ h) =
    if other == fd then taken fd h ++ take n bytes else taken fd h
taken fd (_ ∷ h) = taken fd h

taken_stalled :
    (fd other : ℕ) (bytes : Bytes) (h : History) (r : ℤ)
    → is_positive r ≡ false
    → taken fd (Event.write other bytes r ∷ h) ≡ taken fd h
taken_stalled fd other bytes h (pos zero) z = ground (arith, append-nil (taken fd h))
taken_stalled fd other bytes h (pos (suc n)) z = absurd (ground arith)
taken_stalled fd other bytes h (negsuc n) z = refl

module _ (k : Kernel) (socket : ℕ) (text : Bytes) (w : Progress) (s : Sys) where
  -- The call of `write(2)` in a round, and the state behind it.
  abbrev pub reply : ℤ
  reply = k.write s.trace (fd_of s socket) (chunk text w)

  abbrev pub behind : Sys
  behind = record s { trace = Event.write (fd_of s socket) (chunk text w) reply ∷ s.trace }

  pub round_gone :
      (fuel : ℕ) → baton_of s socket ≡ none → write_loop k socket text (suc fuel) w s ≡ undefined
  unfolding write_loop
  round_gone fuel h = rw (h, write_loop)

  module _ (fuel : ℕ) (b : Baton) (there : baton_of s socket ≡ some b) where
    pub round_closed :
        sees_closed k b s ≡ true
        → write_loop k socket text (suc fuel) w s ≡ returned w.bytes_written s
    unfolding write_loop
    round_closed h = rw (there, h, write_loop)

    pub round_stalled :
        sees_closed k b s ≡ false
        → is_positive reply ≡ false
        → write_loop k socket text (suc fuel) w s
          ≡ write_loop k socket text fuel (back_off w behind).0 (back_off w behind).1
    unfolding write_loop log
    round_stalled h r = ground arith

    pub round_finished :
        sees_closed k b s ≡ false
        → (n : ℕ) → reply ≡ pos (suc n)
        → ((advance w (suc n)).bytes_written == length text) ≡ true
        → write_loop k socket text (suc fuel) w s ≡ returned (length text) behind
    unfolding write_loop log
    round_finished h n r done = ground arith

    pub round_goes_on :
        sees_closed k b s ≡ false
        → (n : ℕ) → reply ≡ pos (suc n)
        → ((advance w (suc n)).bytes_written == length text) ≡ false
        → write_loop k socket text (suc fuel) w s
          ≡ write_loop k socket text fuel (advance w (suc n)) behind
    unfolding write_loop log
    round_goes_on h n r more = ground arith

  -- A round in which nothing is taken changes no table, and no descriptor takes anything.
  pub stalled_state :
      (fd : ℕ)
      → is_positive reply ≡ false
      → let s' = (back_off w behind).1 in
        (s'.sockets ≡ s.sockets) × (s'.batons ≡ s.batons) × (taken fd s'.trace ≡ taken fd s.trace)
  unfolding log
  stalled_state fd h =
      let kept = taken_stalled fd (fd_of s socket) (chunk text w) s.trace reply h in
      elim (Bool-cases (ltb 0 w.retry)) [
        | inl more ↦ rw more (refl, refl, kept)
        | inr last ↦ rw last (refl, refl, kept)
      ]

  pub took_state :
      (fd n : ℕ)
      → fd_of s socket ≡ fd
      → reply ≡ pos (suc n)
      → taken fd behind.trace ≡ taken fd s.trace ++ take (suc n) (chunk text w)
  took_state fd n f h = ground arith
