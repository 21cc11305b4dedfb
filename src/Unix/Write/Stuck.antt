-- ===== src/Unix/Write/Stuck.antt =====
-- When `pty_pipesocket::write` (c_src/unix/pty.cpp) never returns.
use ex_pty.Prelude.{
  ℕ, zero, suc, ◌≡◌, refl, ap, ◌∙◌, false, some, [], ◌∷◌, Bytes, ℤ, pos, negsuc, arith, is_positive,
}
use ex_pty.Unix.Sys.{Event, Kernel, Baton, Sys, History, running, log}
use ex_pty.Unix.Handlers.Defs.{baton_of, fd_of}
use ex_pty.Unix.Write.Defs.{Progress, chunk, back_off, write_loop, start, unlocked, write}
use ex_pty.Unix.Write.Rounds.{reply, behind, round_stalled, stalled_state}
use ex_pty.Unix.Write.Prefix.{WritesWithin}
use ex_pty.Unix.Write.Ends.{same_baton}

-- A terminal that takes nothing, and of which the reader does not go away.
pub record IsStuck (k : Kernel) (fd : ℕ) (bytes : Bytes) : Type 0 where
  pub refuses : (h : History) → is_positive (k.write h fd bytes) ≡ false
  pub stays_open : (h : History) → k.closed_by_reader h ≡ false

module _ (k : Kernel) (socket : ℕ) (text : Bytes) where
  write_loop-runs :
      (fuel : ℕ) (w : Progress) (s : Sys) (b : Baton) (fd : ℕ)
      → IsStuck k fd (chunk text w)
      → fd_of s socket ≡ fd
      → baton_of s socket ≡ some b
      → b.fd_closed ≡ false
      → write_loop k socket text fuel w s ≡ running
  unfolding write_loop
  write_loop-runs zero w s b fd st f there op = refl
  write_loop-runs (suc fuel) w s b fd st f there op =
      let stalled : is_positive (reply k socket text w s) ≡ false =
        ap (λ x. is_positive (k.write s.trace x (chunk text w))) f ∙ st.refuses s.trace in
      let kept = stalled_state k socket text w s 0 stalled in
      round_stalled k socket text w s fuel b there (rw op (st.stays_open s.trace)) stalled
      ∙ write_loop-runs fuel (back_off w (behind k socket text w s)).0
          (back_off w (behind k socket text w s)).1 b fd st (ap (λ g. (g socket).fd) kept.0 ∙ f)
          (same_baton s (back_off w (behind k socket text w s)).1 socket kept.0 kept.1 ∙ there) op

  -- The counter `retry` bounds nothing: as long as the terminal takes nothing of the first chunk, and
  -- is not seen closed, `write` goes on, whatever the fuel.
  pub write-runs :
      (fuel : ℕ) (s : Sys) (b : Baton)
      → IsStuck k (fd_of s socket) (chunk text (start k socket text))
      → baton_of s socket ≡ some b
      → b.fd_closed ≡ false
      → write k socket text fuel s ≡ running
  unfolding write log unlocked
  write-runs fuel s b st there op =
      rw (there, op, st.stays_open s.trace, write)
        (rw (
          write_loop-runs fuel (start k socket text)
            (record s { trace = Event.mutex_lock socket ∷ s.trace }) b (fd_of s socket) st refl
            there op))

-- A `write` of the empty text never returns while the descriptor is open: of no bytes, no terminal
-- takes any.
pub write-empty :
    (k : Kernel) (socket fuel : ℕ) (s : Sys) (b : Baton)
    → WritesWithin k
    → ((h : History) → k.closed_by_reader h ≡ false)
    → baton_of s socket ≡ some b
    → b.fd_closed ≡ false
    → write k socket [] fuel s ≡ running
write-empty k socket fuel s b within opened there op =
    write-runs k socket [] fuel s b
      (record {
        refuses = λ h. refused h (k.write h (fd_of s socket) []) refl;
        stays_open = opened;
      })
      there op
  where
    refused : (h : History) (r : ℤ) → k.write h (fd_of s socket) [] ≡ r → is_positive r ≡ false
    refused h (pos zero) e = ground arith
    refused h (pos (suc n)) e = absurd (omega (arith, within h (fd_of s socket) [] (suc n) e))
    refused h (negsuc n) e = refl
