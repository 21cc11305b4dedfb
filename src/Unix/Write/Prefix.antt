-- ===== src/Unix/Write/Prefix.antt =====
-- What `pty_pipesocket::write` (c_src/unix/pty.cpp) hands to the terminal when it returns.
use ex_pty.Prelude.{
  ℕ, zero, suc, ◌+◌, ◌-◌, ◌≤◌, ◌<◌, ◌≡◌, ◌⊎◌, inl, inr, refl, sym, ap, ◌∙◌, true, some, ◌∷◌, ◌++◌,
  Bytes, pos, ◌==◌, length, take, drop, arith, append-nil, append_assoc, take-add, take-take,
  length-take, length-drop, Option-cases, Bool-cases, ==_iff,
}
use ex_pty.Unix.Sys.{Event, Kernel, Baton, Sys, History, Outcome, returned, undefined, running, log}
use ex_pty.Unix.Handlers.Defs.{baton_of, fd_of}
use ex_pty.Unix.Write.Rounds.{
  ℤ-cases, reply, behind, round_gone, round_closed, round_stalled, round_finished, round_goes_on,
  stalled_state, took_state, taken,
}
use ex_pty.Unix.Write.Defs.{
  size_max, Progress, chunk_size, chunk, advance, back_off, sees_closed, write_loop, start,
  unlocked, write,
}

-- `write(2)` says that it has taken at most as many bytes as it was given.
abbrev pub WritesWithin : Kernel → Type 0
WritesWithin k =
    (h : History) (fd : ℕ) (bytes : Bytes) (n : ℕ) → k.write h fd bytes ≡ pos n → n ≤ length bytes

-- What a run says if it returns.
abbrev pub Returns {ℓ} : {A : Type 0} → (A → Sys → Type ℓ) → Outcome A → Type ℓ
Returns P (returned a s) = P a s
Returns P undefined = Unit
Returns P running = Unit

-- The two counts in the loop agree.
abbrev pub IsProgress : Bytes → Progress → Type 0
IsProgress text w = (w.bytes_written + w.bytes_to_write ≡ length text) × (length text < size_max)

module _ (k : Kernel) (socket : ℕ) (text : Bytes) where
  -- The writer sees in the state `s` that the descriptor was closed.
  abbrev pub SeesClosed : Sys → Type 0
  SeesClosed s = (b : Baton) × (baton_of s socket ≡ some b) × (sees_closed k b s ≡ true)

  -- What the loop promises: the first n bytes were taken, and these are all, unless the descriptor was
  -- seen closed.
  abbrev pub Delivers : (Sys → Type 0) → ℕ → Bytes → ℕ → Sys → Type 0
  Delivers Short fd before n s' =
      (taken fd s'.trace ≡ before ++ take n text)
      × (n ≤ length text)
      × ((n ≡ length text) ⊎ Short s')

  -- A state seen from behind the unlocking of the mutex.
  abbrev before_unlock : History → History
  before_unlock (Event.mutex_unlock socket' ∷ h) = h
  before_unlock h = h

  -- The writer saw the descriptor closed, now or before it unlocked the mutex.
  abbrev pub SawClosed : Sys → Type 0
  SawClosed s = SeesClosed s ⊎ SeesClosed (record s { trace = before_unlock s.trace })

module _ (text : Bytes) where
  pub length-chunk :
      (w : Progress)
      → IsProgress text w
      → (length (chunk text w) ≤ w.bytes_to_write) × (length (chunk text w) ≤ 1024)
  length-chunk w h = ground (
    arith,
    length-take (chunk_size w) (drop w.bytes_written text),
    length-drop w.bytes_written text,
  )

  pub advance-IsProgress :
      (w : Progress) (n : ℕ)
      → IsProgress text w
      → n ≤ w.bytes_to_write
      → IsProgress text (advance w n)
        × ((advance w n).bytes_written ≡ w.bytes_written + n)
        × ((advance w n).bytes_to_write ≡ w.bytes_to_write - n)
  advance-IsProgress w n h le = omega arith

  -- The bytes before a position, and those that are taken of the chunk behind it.
  pub take-chunk :
      (w : Progress) (n : ℕ)
      → n ≤ length (chunk text w)
      → take w.bytes_written text ++ take n (chunk text w) ≡ take (w.bytes_written + n) text
  take-chunk w n le =
      ap (◌++◌ (take w.bytes_written text)) (
        take-take n (chunk_size w) (drop w.bytes_written text)
          (omega (arith, length-take (chunk_size w) (drop w.bytes_written text))))
      ∙ sym (take-add w.bytes_written n text)

module _ (k : Kernel) (socket : ℕ) (text : Bytes) (within : WritesWithin k) where
  pub write_loop-Delivers :
      (fuel : ℕ) (w : Progress) (s : Sys) (fd : ℕ) (before : Bytes)
      → fd_of s socket ≡ fd
      → IsProgress text w
      → taken fd s.trace ≡ before ++ take w.bytes_written text
      → Returns
          (Delivers k socket text (SeesClosed k socket text) fd before)
          (write_loop k socket text fuel w s)
  unfolding write_loop
  write_loop-Delivers zero w s fd before f h t = tt
  write_loop-Delivers (suc fuel) w s fd before f h t = elim (Option-cases (baton_of s socket)) [
    | inl gone ↦ rw (round_gone k socket text w s fuel gone) tt
    | inr (b, there) ↦ elim (Bool-cases (sees_closed k b s)) [
      | inl closed ↦
          rw (round_closed k socket text w s fuel b there closed)
            (t, omega arith, inr (b, there, closed))
      | inr open_ ↦ elim (ℤ-cases (reply k socket text w s)) [
        | inr stalled ↦
            let kept = stalled_state k socket text w s fd stalled in
            rw (round_stalled k socket text w s fuel b there open_ stalled) (
              write_loop-Delivers fuel (back_off w (behind k socket text w s)).0
                (back_off w (behind k socket text w s)).1 fd before
                (ap (λ g. (g socket).fd) kept.0 ∙ f) h (kept.2 ∙ t))
        | inl (n, took) ↦
            let fits = within s.trace (fd_of s socket) (chunk text w) (suc n) took in
            let moved =
              advance-IsProgress text w (suc n) h (omega (arith, length-chunk text w h)) in
            let t' : taken fd (behind k socket text w s).trace
                ≡ before ++ take (advance w (suc n)).bytes_written text =
              took_state k socket text w s fd n f took
              ∙ ap (λ bs. bs ++ take (suc n) (chunk text w)) t
              ∙ append_assoc before _ _
              ∙ ap (◌++◌ before)
                  (take-chunk text w (suc n) fits ∙ ap (λ m. take m text) (sym moved.1)) in
            elim (Bool-cases ((advance w (suc n)).bytes_written == length text)) [
              | inl done ↦ rw (round_finished k socket text w s fuel b there open_ n took done) (
                t' ∙ ap (λ m. before ++ take m text) ((==_iff _ _).0 done),
                omega arith,
                inl refl,
              )
              | inr more ↦ rw (round_goes_on k socket text w s fuel b there open_ n took more) (
                  write_loop-Delivers fuel (advance w (suc n)) (behind k socket text w s) fd before
                    f moved.0 t')
            ]
      ]
    ]
  ]

  unlocked-Delivers :
      (fd : ℕ) (before : Bytes) (j : Outcome ℕ)
      → Returns (Delivers k socket text (SeesClosed k socket text) fd before) j
      → Returns
          (Delivers k socket text (SawClosed k socket text) fd before)
          (unlocked k socket text j)
  unfolding unlocked
  unlocked-Delivers fd before (returned n s) (t, le, inl all) = (t, le, inl all)
  unlocked-Delivers fd before (returned n s) (t, le, inr short) = (t, le, inr (inr short))
  unlocked-Delivers fd before undefined h = tt
  unlocked-Delivers fd before running h = tt

  -- If `write` returns n, what the descriptor has taken meanwhile is the first n bytes of the text,
  -- each once and in order; and n is the length of the text, unless the writer saw that the reading
  -- thread had closed the descriptor.
  pub write-Delivers :
      (fuel : ℕ) (s : Sys)
      → length text < size_max
      → Returns
          (Delivers k socket text
            (SawClosed k socket text)
            (fd_of s socket)
            (taken (fd_of s socket) s.trace))
          (write k socket text fuel s)
  unfolding write log
  write-Delivers fuel s small = elim (Option-cases (baton_of s socket)) [
    | inl gone ↦ rw (gone, write) tt
    | inr (b, there) ↦ elim (Bool-cases (sees_closed k b s)) [
      | inl closed ↦
          rw (there, closed, write) (sym (append-nil _), omega arith, inr (inl (b, there, closed)))
      | inr open_ ↦
          rw (there, open_, write)
            (unlocked-Delivers (fd_of s socket) (taken (fd_of s socket) s.trace) _ (
              write_loop-Delivers fuel (start k socket text)
                (record s { trace = Event.mutex_lock socket ∷ s.trace }) (fd_of s socket)
                (taken (fd_of s socket) s.trace) refl (omega arith) (sym (append-nil _))))
    ]
  ]
