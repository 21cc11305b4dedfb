-- ===== src/Unix/Handlers/Settings.antt =====
-- `expty_pause`, `expty_resume`, `expty_set_echo` and `expty_resize` of c_src/unix/pty.cpp, and the
-- terminal settings that they leave.
use ex_pty.Prelude.{
  ℕ, ◌≡◌, ◌↔◌, refl, sym, ap, Bool, true, false, Option, none, some, [], ◌∷◌, arith, ℤ,
  if◌then◌else◌, ◌==◌,
}
use ex_pty.Enif.{Enif}
use ex_pty.Nif.Scalars.{get_bool}
use ex_pty.Unix.Termios.{Termios, pause_flags, resume_flags, echo_flags}
use ex_pty.Unix.Sys.{Event, Kernel, Sys, History, Outcome, returned}
use ex_pty.Unix.Handlers.Defs.{
  fd_of, ok, change_settings, send_byte, expty_pause, expty_resume, expty_set_echo,
}

-- The settings that were last set on a descriptor.
abbrev pub last_set : ℕ → History → Option Termios
last_set fd [] = none
last_set fd (Event.tcsetattr other t true ∷ h) = if other == fd then some t else last_set fd h
last_set fd (_ ∷ h) = last_set fd h

-- What is set is kept, as long as nobody else sets it: `tcgetattr` gives what was last set.
abbrev pub KeepsSettings : Kernel → Type 0
KeepsSettings k =
    (h : History) (fd : ℕ) (t : Termios) → last_set fd h ≡ some t → k.tcgetattr h fd ≡ some t

-- `tcsetattr` never fails.
abbrev pub SetsAll : Kernel → Type 0
SetsAll k = (h : History) (fd : ℕ) (t : Termios) → k.tcsetattr h fd t ≡ true

-- A run of a handler, for its effect: what it returns does not matter if it returns.
abbrev pub after : {A : Type 0} → Outcome A → Sys → Sys
after (returned a s') s = s'
after _ s = s

module _ (e : Enif) (k : Kernel) (argv : ℕ → e.Term) (socket : ℕ) (t : Termios) where
  -- A pause of a terminal with settings `t`, where both calls succeed, sets IXON and IXOFF and no
  -- other bit, then writes XOFF, whatever comes of the write, and replies `ok`.
  pub expty_pause-sets :
      (s : Sys)
      → e.get_resource (argv 0) ≡ some socket
      → k.tcgetattr s.trace (fd_of s socket) ≡ some t
      → SetsAll k
      → (n : ℤ) × (expty_pause e k argv s
          ≡ returned (ok e) (record s {
            trace =
                Event.write (fd_of s socket) (0x13 ∷ []) n
                ∷ Event.tcsetattr (fd_of s socket) (pause_flags t) true
                ∷ Event.tcgetattr (fd_of s socket) (some t)
                ∷ s.trace;
          }))
  unfolding expty_pause change_settings send_byte
  expty_pause-sets s r g all = (
    k.write
        (Event.tcsetattr (fd_of s socket) (pause_flags t) true
          ∷ Event.tcgetattr (fd_of s socket) (some t)
          ∷ s.trace)
        (fd_of s socket) (0x13 ∷ []),
    ground (
      arith,
      all (Event.tcgetattr (fd_of s socket) (some t) ∷ s.trace) (fd_of s socket) (pause_flags t),
    ),
  )

  -- So does a resume, which clears both bits and no other, and writes XON.
  pub expty_resume-sets :
      (s : Sys)
      → e.get_resource (argv 0) ≡ some socket
      → k.tcgetattr s.trace (fd_of s socket) ≡ some t
      → SetsAll k
      → (n : ℤ) × (expty_resume e k argv s
          ≡ returned (ok e) (record s {
            trace =
                Event.write (fd_of s socket) (0x11 ∷ []) n
                ∷ Event.tcsetattr (fd_of s socket) (resume_flags t) true
                ∷ Event.tcgetattr (fd_of s socket) (some t)
                ∷ s.trace;
          }))
  unfolding expty_resume change_settings send_byte
  expty_resume-sets s r g all = (
    k.write
        (Event.tcsetattr (fd_of s socket) (resume_flags t) true
          ∷ Event.tcgetattr (fd_of s socket) (some t)
          ∷ s.trace)
        (fd_of s socket) (0x11 ∷ []),
    ground (
      arith,
      all (Event.tcgetattr (fd_of s socket) (some t) ∷ s.trace) (fd_of s socket) (resume_flags t),
    ),
  )

  expty_set_echo-sets :
      (s : Sys) (on : Bool)
      → e.get_resource (argv 0) ≡ some socket
      → get_bool e (argv 1) ≡ some on
      → k.tcgetattr s.trace (fd_of s socket) ≡ some t
      → SetsAll k
      → expty_set_echo e k argv s
        ≡ returned (ok e) (record s {
          trace =
              Event.tcsetattr (fd_of s socket) (echo_flags on t) true
              ∷ Event.tcgetattr (fd_of s socket) (some t)
              ∷ s.trace;
        })
  unfolding expty_set_echo change_settings
  expty_set_echo-sets s on r b g all = ground (
    arith,
    all (Event.tcgetattr (fd_of s socket) (some t) ∷ s.trace) (fd_of s socket) (echo_flags on t),
  )

resume-pause : (t : Termios) → resume_flags (pause_flags t) ≡ resume_flags t
unfolding resume_flags pause_flags
resume-pause t = refl

resume_flags_iff :
    (t : Termios) → (resume_flags t ≡ t) ↔ ((t.iflag.ixon ≡ false) × (t.iflag.ixoff ≡ false))
unfolding resume_flags
resume_flags_iff t = (
  (λ h. (sym (ap (λ (u : Termios). u.iflag.ixon) h), sym (ap (λ (u : Termios). u.iflag.ixoff) h))),
  (λ h. ground arith),
)

echo-echo : (on on' : Bool) (t : Termios) → echo_flags on (echo_flags on' t) ≡ echo_flags on t
unfolding echo_flags
echo-echo on on' t = refl

last_set_self :
    (fd : ℕ) (t : Termios) (h : History) → last_set fd (Event.tcsetattr fd t true ∷ h) ≡ some t
last_set_self fd t h = ground arith

module _ (e : Enif) (k : Kernel) (argv argv' : ℕ → e.Term) (socket : ℕ) (t : Termios) (s : Sys)
    (r : e.get_resource (argv 0) ≡ some socket) (r' : e.get_resource (argv' 0) ≡ some socket)
    (g : k.tcgetattr s.trace (fd_of s socket) ≡ some t) (keeps : KeepsSettings k)
    (all : SetsAll k) where
  -- A pause followed by a resume of the same terminal, where the system keeps the settings and both
  -- are set, leaves the settings of before with IXON and IXOFF cleared. So the pair restores the
  -- settings exactly if both bits were clear before the pause.
  pub resume_after_pause :
      let s' = after (expty_resume e k argv' (after (expty_pause e k argv s) s)) s in
      (last_set (fd_of s socket) s'.trace ≡ some (resume_flags t))
      × ((last_set (fd_of s socket) s'.trace ≡ some t)
          ↔ ((t.iflag.ixon ≡ false) × (t.iflag.ixoff ≡ false)))
  resume_after_pause =
      let (n, p) = expty_pause-sets e k argv socket t s r g all in
      let s1 : Sys = paused n in
      let kept = keeps s1.trace (fd_of s socket) (pause_flags t) (ground arith) in
      let (n', q) = expty_resume-sets e k argv' socket (pause_flags t) s1 r' kept all in
      rw (p, q) (ground (arith, resume-pause t, resume_flags_iff t))
    where
      paused : ℤ → Sys
      paused n = record s {
        trace =
            Event.write (fd_of s socket) (0x13 ∷ []) n
            ∷ Event.tcsetattr (fd_of s socket) (pause_flags t) true
            ∷ Event.tcgetattr (fd_of s socket) (some t)
            ∷ s.trace;
      }

  -- Of two calls of `set_echo` the second decides: all five echo flags are as it says, and no other
  -- setting has changed.
  pub set_echo_twice :
      (on on' : Bool)
      → get_bool e (argv 1) ≡ some on
      → get_bool e (argv' 1) ≡ some on'
      → let s' = after (expty_set_echo e k argv' (after (expty_set_echo e k argv s) s)) s in
        last_set (fd_of s socket) s'.trace ≡ some (echo_flags on' t)
  set_echo_twice on on' b b' =
      let p = expty_set_echo-sets e k argv socket t s on r b g all in
      let kept = keeps set_once.trace (fd_of s socket) (echo_flags on t) (ground arith) in
      let q = expty_set_echo-sets e k argv' socket (echo_flags on t) set_once on' r' b' kept all in
      rw (p, q) (ground (arith, echo-echo on' on t))
    where
      set_once : Sys
      set_once = record s {
        trace =
            Event.tcsetattr (fd_of s socket) (echo_flags on t) true
            ∷ Event.tcgetattr (fd_of s socket) (some t)
            ∷ s.trace;
      }
