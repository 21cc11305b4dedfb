-- ===== src/Unix/Handlers/Defs.antt =====
-- The handlers of c_src/unix/pty.cpp on a resource. A handler reads its arguments from `argv`, and
-- reads a baton only where the code does: a baton that is not there is undefined behaviour.
use ex_pty.Prelude.{
  ℕ, true, false, Option, none, some, List, [], ◌∷◌, Bytes, ℤ, pos, codes, is_positive,
  if◌then◌else◌,
}
use ex_pty.Enif.{Enif}
use ex_pty.Nif.Make.{atom, error}
use ex_pty.Nif.Scalars.{get_int, get_bool}
use ex_pty.Unix.Termios.{Termios, winsize, pause_flags, resume_flags, echo_flags}
use ex_pty.Unix.Sys.{Event, Errno, Kernel, Baton, Sys, Outcome, returned, undefined, erase, log}

-- `pipesocket->baton`, followed.
abbrev pub baton_of : Sys → ℕ → Option Baton
baton_of s socket = elim ((s.sockets socket).baton) [ none ↦ none | some b ↦ s.batons b ]

abbrev pub fd_of : Sys → ℕ → ℕ
fd_of s socket = (s.sockets socket).fd

abbrev pub sigterm : ℤ
sigterm = pos 15

-- The destructor of the library: every process of the map, in its order.
unfoldable pub cleanup_from : List (ℕ × ℕ) → Sys → Sys
unfolding log
cleanup_from [] s = s
cleanup_from ((pid, socket) ∷ m) s = cleanup_from m (log (Event.kill pid sigterm) s)

unfoldable pub cleanup : Sys → Sys
unfolding cleanup_from
cleanup s = cleanup_from s.processes s

module _ (e : Enif) where
  -- The reply where the condition of a handler fails.
  unfoldable pub no_resource : e.Term
  no_resource = error e (codes "Cannot get pipesocket resource")

  unfoldable pub ok : e.Term
  ok = atom e (codes "ok")

  -- `kill(pipesocket->baton->pid, signal)`, and the entry removed.
  unfoldable pub kill_socket : ℕ → ℤ → Sys → Outcome e.Term
  unfolding log
  kill_socket socket signal s = elim (baton_of s socket) [
    | none ↦ undefined
    | some b ↦
        returned ok
          (record (log (Event.kill b.pid signal) s) { processes = erase b.pid s.processes })
  ]

  unfoldable pub expty_kill : (ℕ → e.Term) → Sys → Outcome e.Term
  expty_kill argv s = elim (e.get_resource (argv 0)) [
    | none ↦ returned no_resource s
    | some socket ↦ elim (get_int e (argv 1)) [
      | none ↦ returned no_resource s
      | some signal ↦
          if is_positive signal then kill_socket socket signal s else returned no_resource s
    ]
  ]

  unfoldable pub errno_message : Errno → Bytes
  errno_message Errno.ebadf = codes "ioctl(2) failed, EBADF"
  errno_message Errno.efault = codes "ioctl(2) failed, EFAULT"
  errno_message Errno.einval = codes "ioctl(2) failed, EINVAL"
  errno_message Errno.enotty = codes "ioctl(2) failed, ENOTTY"
  errno_message (Errno.other n) = codes "ioctl(2) failed"

module _ (e : Enif) (k : Kernel) where
  -- `ioctl(pipesocket->fd, TIOCSWINSZ, &winp)`
  unfoldable pub resize_socket : ℕ → ℤ → ℤ → Sys → Outcome e.Term
  unfolding log
  resize_socket socket cols rows s =
      let winp = winsize cols rows in
      let failed = k.set_winsize s.trace (fd_of s socket) winp in
      let s' = log (Event.set_winsize (fd_of s socket) winp failed) s in
      elim failed [
        | none ↦ returned (ok e) s'
        | some errno ↦ returned (error e (errno_message e errno)) s'
      ]

  unfoldable pub expty_resize : (ℕ → e.Term) → Sys → Outcome e.Term
  expty_resize argv s = elim (e.get_resource (argv 0)) [
    | none ↦ returned (no_resource e) s
    | some socket ↦ elim (get_int e (argv 1)) [
      | none ↦ returned (no_resource e) s
      | some cols ↦ elim (is_positive cols) [
        | false ↦ returned (no_resource e) s
        | true ↦ elim (get_int e (argv 2)) [
          | none ↦ returned (no_resource e) s
          | some rows ↦
              if is_positive rows
              then resize_socket socket cols rows s
              else returned (no_resource e) s
        ]
      ]
    ]
  ]

  -- `tcgetattr`, a change of the settings, and `tcsetattr`; then `behind`.
  unfoldable pub change_settings :
      (Termios → Termios) → ℕ → (Sys → Outcome e.Term) → Sys → Outcome e.Term
  unfolding log
  change_settings change fd behind s =
      let got = k.tcgetattr s.trace fd in
      let s1 = log (Event.tcgetattr fd got) s in
      elim got [
        | none ↦ returned (error e (codes "tcgetattr failed.\n")) s1
        | some settings ↦
            let done = k.tcsetattr s1.trace fd (change settings) in
            let s2 = log (Event.tcsetattr fd (change settings) done) s1 in
            if done then behind s2 else returned (error e (codes "tcsetattr failed.\n")) s2
      ]

  -- `write(pipesocket->fd, &c, 1)`, its result ignored, and the reply.
  unfoldable pub send_byte : ℕ → ℕ → Sys → Outcome e.Term
  unfolding log
  send_byte fd c s = returned (ok e) (log (Event.write fd (c ∷ []) (k.write s.trace fd (c ∷ []))) s)

  -- XOFF is 0x13, and XON is 0x11.
  unfoldable pub expty_pause : (ℕ → e.Term) → Sys → Outcome e.Term
  expty_pause argv s = elim (e.get_resource (argv 0)) [
    | none ↦ returned (no_resource e) s
    | some socket ↦ change_settings pause_flags (fd_of s socket) (send_byte (fd_of s socket) 0x13) s
  ]

  unfoldable pub expty_resume : (ℕ → e.Term) → Sys → Outcome e.Term
  expty_resume argv s = elim (e.get_resource (argv 0)) [
    | none ↦ returned (no_resource e) s
    | some socket ↦
        change_settings resume_flags (fd_of s socket) (send_byte (fd_of s socket) 0x11) s
  ]

  unfoldable pub expty_set_echo : (ℕ → e.Term) → Sys → Outcome e.Term
  expty_set_echo argv s = elim (e.get_resource (argv 0)) [
    | none ↦ returned (no_resource e) s
    | some socket ↦ elim (get_bool e (argv 1)) [
      | none ↦ returned (no_resource e) s
      | some echo ↦ change_settings (echo_flags echo) (fd_of s socket) (λ s'. returned (ok e) s') s
    ]
  ]

  unfoldable pub expty_stub : (ℕ → e.Term) → Sys → Outcome e.Term
  expty_stub argv s =
      returned (error e (codes "invalid NIF call to platform-specific implementation")) s
