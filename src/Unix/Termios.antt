-- ===== src/Unix/Termios.antt =====
-- The terminal settings that c_src/unix/pty.cpp reads and writes. POSIX gives each named flag a bit of
-- its own: a flag word is a record with a field for each flag that the source names, and `rest` for
-- all other bits. `cc_t` is an unsigned char, `ws_col` and `ws_row` are unsigned shorts.
use ex_pty.Prelude.{ℕ, ◌%◌, ◌^◌, ◌-◌, Bool, true, false, ◌&&◌, ℤ, pos, negsuc, if◌then◌else◌}

pub record Iflag : Type 0 where
  pub icrnl : Bool
  pub ixon : Bool
  pub ixany : Bool
  pub ixoff : Bool
  pub imaxbel : Bool
  pub brkint : Bool
  pub iutf8 : Bool
  pub rest : ℕ

pub record Oflag : Type 0 where
  pub opost : Bool
  pub onlcr : Bool
  pub rest : ℕ

pub record Cflag : Type 0 where
  pub cread : Bool
  pub cs8 : Bool
  pub hupcl : Bool
  pub rest : ℕ

pub record Lflag : Type 0 where
  pub icanon : Bool
  pub isig : Bool
  pub iexten : Bool
  pub echo : Bool
  pub echoe : Bool
  pub echok : Bool
  pub echoke : Bool
  pub echoctl : Bool
  pub rest : ℕ

-- The indices into `c_cc`.
pub data Cc : Type 0 where
  veof veol veol2 verase vwerase vkill vreprint vintr vquit vsusp vstart vstop vlnext vdiscard : Cc
  vmin vtime vdsusp vstatus : Cc
  other : ℕ → Cc

pub record Termios : Type 0 where
  pub iflag : Iflag
  pub oflag : Oflag
  pub cflag : Cflag
  pub lflag : Lflag
  pub cc : Cc → ℕ
  pub ispeed : ℕ
  pub ospeed : ℕ

pub record Winsize : Type 0 where
  pub ws_col : ℕ
  pub ws_row : ℕ
  pub ws_xpixel : ℕ
  pub ws_ypixel : ℕ

-- What the preprocessor knows of the platform.
pub record Platform : Type 0 where
  pub apple : Bool
  pub has_iutf8 : Bool
  pub has_cloexec_default : Bool

-- An `int` stored into an unsigned short.
unfoldable pub u16 : ℤ → ℕ
u16 (pos n) = n % 2 ^ 16
u16 (negsuc n) = (2 ^ 16 - 1) - n % 2 ^ 16

-- The `struct winsize` of `expty_spawn` and `expty_resize`.
unfoldable pub winsize : ℤ → ℤ → Winsize
unfolding u16
winsize cols rows = record { ws_col = u16 cols; ws_row = u16 rows; ws_xpixel = 0; ws_ypixel = 0 }

-- The characters that `expty_spawn` assigns to a zeroed `c_cc`; -1 as a `cc_t` is 255.
unfoldable pub spawn_cc : Platform → Cc → ℕ
spawn_cc p Cc.veof = 4
spawn_cc p Cc.veol = 255
spawn_cc p Cc.veol2 = 255
spawn_cc p Cc.verase = 0x7f
spawn_cc p Cc.vwerase = 23
spawn_cc p Cc.vkill = 21
spawn_cc p Cc.vreprint = 18
spawn_cc p Cc.vintr = 3
spawn_cc p Cc.vquit = 0x1c
spawn_cc p Cc.vsusp = 26
spawn_cc p Cc.vstart = 17
spawn_cc p Cc.vstop = 19
spawn_cc p Cc.vlnext = 22
spawn_cc p Cc.vdiscard = 15
spawn_cc p Cc.vmin = 1
spawn_cc p Cc.vtime = 0
spawn_cc p Cc.vdsusp = if p.apple then 25 else 0
spawn_cc p Cc.vstatus = if p.apple then 20 else 0
spawn_cc p (Cc.other n) = 0

-- The settings with which `expty_spawn` opens the terminal, before it sets the speeds.
unfoldable pub spawn_termios : Platform → Bool → Bool → Termios
unfolding spawn_cc
spawn_termios p is_utf8 echo = record {
  iflag = record {
    icrnl = true;
    ixon = true;
    ixany = true;
    ixoff = false;
    imaxbel = true;
    brkint = true;
    iutf8 = is_utf8 && p.has_iutf8;
    rest = 0;
  };
  oflag = record { opost = true; onlcr = true; rest = 0 };
  cflag = record { cread = true; cs8 = true; hupcl = true; rest = 0 };
  lflag = record {
    icanon = true;
    isig = true;
    iexten = true;
    echo = echo;
    echoe = echo;
    echok = echo;
    echoke = echo;
    echoctl = echo;
    rest = 0;
  };
  cc = spawn_cc p;
  ispeed = 0;
  ospeed = 0;
}

-- `settings.c_iflag |= IXON | IXOFF`
unfoldable pub pause_flags : Termios → Termios
pause_flags t = record t { iflag = record t.iflag { ixon = true; ixoff = true } }

-- `settings.c_iflag &= ~(IXON | IXOFF)`
unfoldable pub resume_flags : Termios → Termios
resume_flags t = record t { iflag = record t.iflag { ixon = false; ixoff = false } }

-- `settings.c_lflag |= ECHO | …`, or `&= ~(ECHO | …)`
unfoldable pub echo_flags : Bool → Termios → Termios
echo_flags on t = record t {
  lflag = record t.lflag { echo = on; echoe = on; echok = on; echoke = on; echoctl = on };
}
