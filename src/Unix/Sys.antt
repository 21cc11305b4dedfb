-- ===== src/Unix/Sys.antt =====
-- The state that c_src/unix/pty.cpp works on, and its calls of the operating system, of libuv and of
-- the allocators, which are no part of the repository. Each call is an event with its reply; the
-- reply is a function of the events before it, so that a parameter `Kernel` stands for any behaviour.
use ex_pty.Prelude.{ℕ, Bool, Option, none, some, List, [], ◌∷◌, Bytes, ℤ, ◌==◌, ltb, if◌then◌else◌}
use ex_pty.Unix.Termios.{Termios, Winsize}

-- What `posix_spawn` is asked to start.
pub record Image : Type 0 where
  pub argv : List Bytes
  pub envp : List Bytes
  pub cloexec_default : Bool

pub data Thread : Type 0 where
  waits reads : Thread

-- The bytes of `errno` that the sources tell apart.
pub data Errno : Type 0 where
  ebadf efault einval enotty : Errno
  other : ℕ → Errno

pub data Event : Type 0 where
  block_signals restore_signals : Event
  openpty : Termios → Winsize → Option (ℕ × ℕ) → Event
  pipe : Option (ℕ × ℕ) → Event
  file_actions_init file_actions_destroy spawnattr_init spawnattr_destroy : Event
  add_dup2 : ℕ → ℕ → Event
  add_close : ℕ → Event
  set_flags : Bool → Event
  posix_spawn : Image → ℕ → ℕ → Event
  close : ℕ → Event
  read_report : ℕ → ℤ → Event
  get_flags : ℕ → ℤ → Event
  set_nonblock : ℕ → ℤ → Event
  kill : ℕ → ℤ → Event
  mutex_init : ℕ → Event
  mutex_lock mutex_unlock : ℕ → Event
  async_init start : Thread → ℕ → Event
  free_strings : List Bytes → Event
  tcgetattr : ℕ → Option Termios → Event
  tcsetattr : ℕ → Termios → Bool → Event
  set_winsize : ℕ → Winsize → Option Errno → Event
  write : ℕ → Bytes → ℤ → Event
  usleep : ℕ → Event

-- The events so far, the newest first.
abbrev pub History : Type 0
History = List Event

-- `none` stands for a failing call or a null pointer.
pub record Kernel : Type 0 where
  pub new_envs : History → Bool
  pub new_argv : History → Bool
  pub getuid : History → ℤ
  pub getgid : History → ℤ
  pub openpty : History → Option (ℕ × ℕ)
  pub pipe : History → Option (ℕ × ℕ)
  pub alloc_resource : History → Option ℕ
  pub alloc_pid : History → Option ℕ
  -- The error, 0 for none, and the child's pid.
  pub posix_spawn : History → Image → ℕ × ℕ
  -- The number of bytes read and the two integers of the report.
  pub read_report : History → ℕ → ℤ × ℤ × ℤ
  pub ptsname : History → ℕ → Bytes
  pub get_flags : History → ℕ → ℤ
  pub set_nonblock : History → ℕ → ℤ
  pub strerror : ℤ → Bytes
  pub cfsetispeed : ℤ → Termios → Termios
  pub cfsetospeed : ℤ → Termios → Termios
  pub tcgetattr : History → ℕ → Option Termios
  pub tcsetattr : History → ℕ → Termios → Bool
  pub set_winsize : History → ℕ → Winsize → Option Errno
  pub write : History → ℕ → Bytes → ℤ
  -- Whether the reading thread has marked the descriptor closed by now.
  pub closed_by_reader : History → Bool

-- `struct pty_baton`; a freed or null pointer is `none`.
pub record Baton : Type 0 where
  pub process : Option ℕ
  pub fd_closed : Bool
  pub exit_code : ℤ
  pub signal_code : ℤ
  pub pid : ℕ

-- `struct pty_pipesocket_`; a baton that was never assigned is `none`.
pub record Pipesocket : Type 0 where
  pub fd : ℕ
  pub baton : Option ℕ
  pub process : ℕ

-- Resources live as long as a term names them; a baton is `none` once deleted.
pub record Sys : Type 0 where
  pub trace : History
  pub processes : List (ℕ × ℕ)
  pub sockets : ℕ → Pipesocket
  pub batons : ℕ → Option Baton
  pub next_baton : ℕ

-- A call returns, runs into undefined behaviour, or is still running when its fuel is spent.
pub data Outcome {ℓ} (A : Type ℓ) : Type ℓ where
  returned : A → Sys → Outcome A
  undefined : Outcome A
  running : Outcome A

-- An array of objects, and a `std::map` of which the keys are kept in order.
unfoldable pub update {ℓ} : {A : Type ℓ} → (ℕ → A) → ℕ → A → ℕ → A
update f i v j = if i == j then v else f j

unfoldable pub lookup : ℕ → List (ℕ × ℕ) → Option ℕ
lookup k [] = none
lookup k ((j, v) ∷ m) = if j == k then some v else lookup k m

unfoldable pub insert : ℕ → ℕ → List (ℕ × ℕ) → List (ℕ × ℕ)
insert k v [] = (k, v) ∷ []
insert k v ((j, w) ∷ m) =
    if j == k then (k, v) ∷ m else if ltb k j then (k, v) ∷ (j, w) ∷ m else (j, w) ∷ insert k v m

unfoldable pub erase : ℕ → List (ℕ × ℕ) → List (ℕ × ℕ)
erase k [] = []
erase k ((j, w) ∷ m) = if j == k then m else (j, w) ∷ erase k m

unfoldable pub log : Event → Sys → Sys
log ev s = record s { trace = ev ∷ s.trace }
