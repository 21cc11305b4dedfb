-- ===== src/Unix/Write/Reply.antt =====
-- The replies of `expty_write` (c_src/unix/pty.cpp).
use ex_pty.Prelude.{
  ℕ, ◌+◌, ◌*◌, ◌<◌, ◌≡◌, ◌⊎◌, inl, inr, refl, none, some, Bytes, ◌==◌, ==_iff, length, take,
  take_all, ap, ◌∙◌, arith, ◌++◌, codes, pos, Bool-cases,
}
use ex_pty.Enif.{Enif}
use ex_pty.Nif.Make.{atom}
use ex_pty.Unix.Sys.{Kernel, Baton, Sys, Outcome, returned, undefined, running}
use ex_pty.Unix.Handlers.Defs.{baton_of, fd_of}
use ex_pty.Unix.Write.Defs.{size_max, write, write_reply, expty_write}
use ex_pty.Unix.Write.Rounds.{taken}
use ex_pty.Unix.Write.Ends.{Takes, write-returns}
use ex_pty.Unix.Write.Prefix.{WritesWithin, Returns, Delivers, SawClosed, write-Delivers}

-- What a reply for `text` means: `ok` that the terminal has taken all of it, `{partial, n}` that it has
-- taken the first n bytes and was then seen closed.
abbrev pub Tells : (e : Enif) → Kernel → ℕ → Bytes → Sys → e.Term → Sys → Type 0
Tells e k socket text s t s' =
    ((t ≡ atom e (codes "ok"))
      × (taken (fd_of s socket) s'.trace ≡ taken (fd_of s socket) s.trace ++ text))
    ⊎ ((n : ℕ) × (t ≡ e.make_tuple2 (atom e (codes "partial")) (e.make_int64 (pos n)))
        × (n < length text)
        × (taken (fd_of s socket) s'.trace ≡ taken (fd_of s socket) s.trace ++ take n text)
        × SawClosed k socket text s')

write_reply-Tells :
    (e : Enif) (k : Kernel) (socket : ℕ) (text : Bytes) (s : Sys) (j : Outcome ℕ)
    → Returns
        (Delivers k socket text
          (SawClosed k socket text)
          (fd_of s socket)
          (taken (fd_of s socket) s.trace))
        j
    → Returns (Tells e k socket text s) (write_reply e k text j)
unfolding write_reply
write_reply-Tells e k socket text s undefined h = tt
write_reply-Tells e k socket text s running h = tt
write_reply-Tells e k socket text s (returned n s') (t, le, how) =
    elim (Bool-cases (n == length text)) [
      | inl all ↦ rw all (
          inl (
            refl,
            t
                ∙ ap (λ m. taken (fd_of s socket) s.trace ++ take m text) ((==_iff _ _).0 all)
                ∙ ap (◌++◌ (taken (fd_of s socket) s.trace))
                    (take_all (length text) text (omega arith)),
          ))
      | inr part ↦ elim how [
        | inl all ↦ absurd (ground arith)
        | inr saw ↦ rw part (inr (n, refl, ground arith, t, saw))
      ]
    ]

-- The call is given `text`, as a binary or as an io-list.
abbrev pub Given : (e : Enif) → e.Term → Bytes → Type 0
Given e t text =
    (e.inspect_binary t ≡ some text)
    ⊎ ((e.inspect_binary t ≡ none) × (e.inspect_iolist_as_binary t ≡ some text))

expty_write-write :
    (e : Enif) (k : Kernel) (fuel : ℕ) (argv : ℕ → e.Term) (s : Sys) (socket : ℕ) (text : Bytes)
    → e.get_resource (argv 0) ≡ some socket
    → Given e (argv 1) text
    → expty_write e k fuel argv s ≡ write_reply e k text (write k socket text fuel s)
unfolding expty_write
expty_write-write e k fuel argv s socket text r (inl b) = rw (r, b, expty_write) refl
expty_write-write e k fuel argv s socket text r (inr (nb, b)) = rw (r, nb, b, expty_write) refl

write_reply-returned :
    (e : Enif) (k : Kernel) (text : Bytes) (n : ℕ) (s : Sys)
    → (t : e.Term) × (write_reply e k text (returned n s) ≡ returned t s)
unfolding write_reply
write_reply-returned e k text n s = (_, refl)

-- If `expty_write` returns, its reply is true of the terminal: `ok` only if the terminal has taken
-- the whole text, once and in order, and `{partial, n}` only if it has taken the first n bytes of a
-- longer text and the writer then saw the descriptor closed. The text is the binary, or the bytes of
-- the io-list, that the call was given.
pub expty_write-Tells :
    (e : Enif) (k : Kernel) (fuel : ℕ) (argv : ℕ → e.Term) (s : Sys) (socket : ℕ) (text : Bytes)
    → WritesWithin k
    → length text < size_max
    → e.get_resource (argv 0) ≡ some socket
    → Given e (argv 1) text
    → Returns (Tells e k socket text s) (expty_write e k fuel argv s)
expty_write-Tells e k fuel argv s socket text within small r given =
    rw (expty_write-write e k fuel argv s socket text r given)
      (write_reply-Tells e k socket text s _ (write-Delivers k socket text within fuel s small))

told :
    {A : Type 0} (P : A → Sys → Type 0) (j : Outcome A) (t : A) (s' : Sys)
    → j ≡ returned t s'
    → Returns P j
    → P t s'
told P j t s' h r = rw h at r

-- On a terminal that keeps taking bytes, `expty_write` of a text that is not empty returns within a
-- number of rounds that the length of the text and the terminal's patience bound, and its reply is
-- true: `ok` only if the terminal has taken the whole text, once and in order, and `{partial, n}` only
-- if it has taken the first n bytes of a longer text and the writer then saw the descriptor closed.
pub expty_write-completes :
    (e : Enif) (k : Kernel) (argv : ℕ → e.Term) (s : Sys) (socket : ℕ) (text : Bytes)
    (bound fuel : ℕ) (b : Baton)
    → WritesWithin k
    → Takes k bound
    → 0 < length text
    → length text < size_max
    → length text * (bound + 1) + bound < fuel
    → e.get_resource (argv 0) ≡ some socket
    → Given e (argv 1) text
    → baton_of s socket ≡ some b
    → (t : e.Term) × (s' : Sys) × (expty_write e k fuel argv s ≡ returned t s')
      × Tells e k socket text s t s'
expty_write-completes e k argv s socket text bound fuel b within takes some_ small enough r given
      there =
    let (n, s', h) =
      write-returns k socket text within bound takes fuel s b some_ small there enough in
    let (t, h') = write_reply-returned e k text n s' in
    let run =
      expty_write-write e k fuel argv s socket text r given ∙ ap (write_reply e k text) h ∙ h' in
    let tells = expty_write-Tells e k fuel argv s socket text within small r given in
    (t, s', run, told (Tells e k socket text s) _ t s' run tells)
