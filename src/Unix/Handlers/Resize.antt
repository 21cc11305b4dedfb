-- ===== src/Unix/Handlers/Resize.antt =====
-- `expty_resize` of c_src/unix/pty.cpp: when it calls the system, with which size, and its replies.
use ex_pty.Prelude.{
  ℕ, ◌^◌, ◌<◌, ◌≡◌, ◌↔◌, ◌⊎◌, inl, inr, false, Option, none, some, ◌∷◌, ℤ, pos, arith, is_positive,
  ap, ◌&&◌, Option-cases,
}
use ex_pty.Enif.{Enif}
use ex_pty.Nif.Make.{error}
use ex_pty.Nif.Scalars.{get_int}
use ex_pty.Unix.Termios.{Winsize, winsize}
use ex_pty.Unix.Sys.{Event, Errno, Kernel, Sys, returned, log}
use ex_pty.Unix.Handlers.Defs.{fd_of, no_resource, ok, errno_message, resize_socket, expty_resize}

-- A size of positive numbers is what the terminal gets exactly if both lie below 2 ^ 16; other sizes
-- arrive modulo 2 ^ 16, and so may arrive as 0.
pub winsize_iff :
    (cols rows : ℕ)
    → (winsize (pos cols) (pos rows)
        ≡ record { ws_col = cols; ws_row = rows; ws_xpixel = 0; ws_ypixel = 0 })
      ↔ ((cols < 2 ^ 16) × (rows < 2 ^ 16))
unfolding winsize
winsize_iff cols rows = (
  (λ h.
      let c = ap (λ (w : Winsize). w.ws_col) h in
      let r = ap (λ (w : Winsize). w.ws_row) h in omega arith),
  (λ h. ground arith),
)

-- What `ioctl` says, in words.
abbrev pub answer : (e : Enif) → Option Errno → e.Term
answer e none = ok e
answer e (some errno) = error e (errno_message e errno)

module _ (e : Enif) (k : Kernel) (argv : ℕ → e.Term) (s : Sys) where
  -- A resize of a resource to a size of positive numbers below 2 ^ 16 asks the system once, for that
  -- size and with no pixels, and for nothing else; it replies `ok` if the system does it, and the
  -- words for the error if not.
  pub expty_resize-applies :
      (socket cols rows : ℕ)
      → e.get_resource (argv 0) ≡ some socket
      → get_int e (argv 1) ≡ some (pos cols)
      → get_int e (argv 2) ≡ some (pos rows)
      → (0 < cols) × (cols < 2 ^ 16)
      → (0 < rows) × (rows < 2 ^ 16)
      → (failed : Option Errno) × (expty_resize e k argv s
          ≡ returned (answer e failed) (record s {
            trace =
                Event.set_winsize
                  (fd_of s socket)
                  (record { ws_col = cols; ws_row = rows; ws_xpixel = 0; ws_ypixel = 0 })
                  failed
                ∷ s.trace;
          }))
  unfolding expty_resize resize_socket log
  expty_resize-applies socket cols rows r c1 c2 hc hr = (
    k.set_winsize s.trace (fd_of s socket)
        (record { ws_col = cols; ws_row = rows; ws_xpixel = 0; ws_ypixel = 0 }),
    ground (arith, (winsize_iff cols rows).1 (hc.1, hr.1)),
  )

  -- Without a resource, or with a size that is not of two positive numbers, it does nothing and says
  -- that it has no resource.
  pub expty_resize-refuses :
      (e.get_resource (argv 0) ≡ none)
        ⊎ ((cols rows : ℤ)
            → get_int e (argv 1) ≡ some cols
            → get_int e (argv 2) ≡ some rows
            → (is_positive cols && is_positive rows) ≡ false)
      → expty_resize e k argv s ≡ returned (no_resource e) s
  unfolding expty_resize
  expty_resize-refuses (inl h) = rw (h, expty_resize)
  expty_resize-refuses (inr h) = elim (Option-cases (e.get_resource (argv 0))) [
    | inl none_ ↦ rw (none_, expty_resize)
    | inr (socket, r) ↦ elim (Option-cases (get_int e (argv 1))) [
      | inl none_ ↦ rw (r, none_, expty_resize)
      | inr (cols, c) ↦ elim (Option-cases (get_int e (argv 2))) [
        | inl none_ ↦ ground arith
        | inr (rows, c') ↦ ground (arith, h cols rows c c')
      ]
    ]
  ]
