-- ===== src/Tests/Machine.antt =====
-- A system on which calls succeed, and an empty state of the NIF.
use ex_pty.Prelude.{true, false, Option, none, some, [], ◌∷◌, pos, negsuc, length, codes, min}
use ex_pty.Unix.Termios.{Termios, Platform, spawn_termios}
use ex_pty.Unix.Sys.{Kernel, Pipesocket, Baton, Sys}
use ex_pty.Unix.Handlers.Settings.{last_set}

abbrev pub linux : Platform
linux = record { apple = false; has_iutf8 = true; has_cloexec_default = false }

abbrev pub settings : Termios
settings = spawn_termios linux true false

-- What was last set on a terminal, or the settings above.
abbrev pub set_or_default : Option Termios → Option Termios
set_or_default none = some settings
set_or_default (some t) = some t

-- The terminal takes at most four bytes at a time.
abbrev pub kernel : Kernel
kernel = record {
  new_envs = λ h. true;
  new_argv = λ h. true;
  getuid = λ h. pos 1000;
  getgid = λ h. pos 100;
  openpty = λ h. some (10, 11);
  pipe = λ h. some (12, 13);
  alloc_resource = λ h. some 7;
  alloc_pid = λ h. some 3;
  posix_spawn = λ h image. (0, 4242);
  read_report = λ h fd. (pos 0, pos 0, pos 0);
  ptsname = λ h fd. codes "/dev/pts/5";
  get_flags = λ h fd. pos 2;
  set_nonblock = λ h fd. pos 0;
  strerror = λ n. codes "error";
  cfsetispeed = λ n t. t;
  cfsetospeed = λ n t. t;
  tcgetattr = λ h fd. set_or_default (last_set fd h);
  tcsetattr = λ h fd t. true;
  set_winsize = λ h fd w. none;
  write = λ h fd bytes. pos (min 4 (length bytes));
  closed_by_reader = λ h. false;
}

-- A terminal that takes nothing.
abbrev pub deaf_kernel : Kernel
deaf_kernel = record kernel { write = λ h fd bytes. negsuc 0 }

abbrev pub child_baton : Baton
child_baton = record {
  process = some 3;
  fd_closed = false;
  exit_code = pos 0;
  signal_code = pos 0;
  pid = 4242;
}

abbrev pub no_socket : Pipesocket
no_socket = record { fd = 0; baton = none; process = 0 }

abbrev pub empty_sys : Sys
empty_sys = record {
  trace = [];
  processes = [];
  sockets = λ i. no_socket;
  batons = λ i. none;
  next_baton = 0;
}

-- One child, on resource 7.
abbrev pub one_child : Sys
one_child = record {
  trace = [];
  processes = (4242, 7) ∷ [];
  sockets = λ i. record { fd = 10; baton = some 0; process = 3 };
  batons = λ i. some child_baton;
  next_baton = 1;
}

-- A system that has no pseudo-terminals left.
abbrev pub no_pty_kernel : Kernel
no_pty_kernel = record kernel { openpty = λ h. none }
