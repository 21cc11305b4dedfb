-- ===== src/Server/Options.antt =====
-- The options of lib/expty.ex: `default_pty_options`, and their merge with those of the caller.
use ex_pty.Prelude.{
  ℕ, ◌+◌, Bool, false, ◌||◌, Option, none, some, List, [], ◌∷◌, ◌++◌, pos, codes, ◌==◌,
  if◌then◌else◌,
}
use ex_pty.Server.CommandLine.{Text}
use ex_pty.Server.Terms.{Atom, Term, nil, bool, Exported}
use ex_pty.Server.Calls.{Os}

pub data Key : Type 0 where
  name cols rows ibaudrate obaudrate env cwd on_data on_exit echo encoding : Key
  handle_flow_control flow_control_pause flow_control_resume uid gid close_fds : Key
  debug pipe_name inherit_cursor : Key
  unknown : ℕ → Key

abbrev pub code_of : Key → ℕ
code_of Key.name = 0
code_of Key.cols = 1
code_of Key.rows = 2
code_of Key.ibaudrate = 3
code_of Key.obaudrate = 4
code_of Key.env = 5
code_of Key.cwd = 6
code_of Key.on_data = 7
code_of Key.on_exit = 8
code_of Key.echo = 9
code_of Key.encoding = 10
code_of Key.handle_flow_control = 11
code_of Key.flow_control_pause = 12
code_of Key.flow_control_resume = 13
code_of Key.uid = 14
code_of Key.gid = 15
code_of Key.close_fds = 16
code_of Key.debug = 17
code_of Key.pipe_name = 18
code_of Key.inherit_cursor = 19
code_of (Key.unknown n) = 20 + n

abbrev pub same_key : Key → Key → Bool
same_key j k = code_of j == code_of k

abbrev pub Keywords : Type 0
Keywords = List (Key × Term)

-- The machine, the configuration of the application and the library of Elixir: `none` is an exception.
pub record Host : Type 0 where
  pub os : Os
  pub config : Key → Option Term
  pub system_env : Term
  pub expand : Term → Option Text
  pub to_string : Term → Option Text
  pub exported : Atom → Exported → ℕ → Bool
  pub uniform : ℕ → ℕ
  pub helper_path : Text

-- `Application.get_env(:expty, key, default)`
abbrev pub get_env : Host → Key → Term → Term
get_env host key default = elim (host.config key) [ none ↦ default | some t ↦ t ]

unfoldable pub default_unix : Host → Text → Keywords
default_unix host home =
    (Key.name, get_env host Key.name (Term.binary (codes "xterm-color")))
    ∷ (Key.cols, get_env host Key.cols (Term.integer (pos 80)))
    ∷ (Key.rows, get_env host Key.rows (Term.integer (pos 24)))
    ∷ (Key.ibaudrate, Term.integer (pos 38400))
    ∷ (Key.obaudrate, Term.integer (pos 38400))
    ∷ (Key.env, get_env host Key.env host.system_env)
    ∷ (Key.cwd, get_env host Key.cwd (Term.binary home))
    ∷ (Key.on_data, nil)
    ∷ (Key.on_exit, nil)
    ∷ (Key.echo, get_env host Key.echo (bool false))
    ∷ (Key.encoding, get_env host Key.encoding (Term.binary (codes "utf-8")))
    ∷ (Key.handle_flow_control, get_env host Key.handle_flow_control (bool false))
    ∷ (Key.flow_control_pause, get_env host Key.flow_control_pause (Term.binary (0x13 ∷ [])))
    ∷ (Key.flow_control_resume, get_env host Key.flow_control_resume (Term.binary (0x11 ∷ [])))
    ∷ []

unfoldable pub default_win32 : Host → Text → Keywords
default_win32 host home =
    (Key.name, get_env host Key.name (Term.binary (codes "Windows Shell")))
    ∷ (Key.cols, get_env host Key.cols (Term.integer (pos 80)))
    ∷ (Key.rows, get_env host Key.rows (Term.integer (pos 24)))
    ∷ (Key.env, get_env host Key.env host.system_env)
    ∷ (Key.cwd, get_env host Key.cwd (Term.binary home))
    ∷ (Key.on_data, nil)
    ∷ (Key.on_exit, nil)
    ∷ (Key.debug, get_env host Key.debug (bool false))
    ∷ (Key.pipe_name, get_env host Key.pipe_name (Term.binary (codes "pipe")))
    ∷ (Key.inherit_cursor, get_env host Key.inherit_cursor (bool false))
    ∷ []

-- `Path.expand("~")` is evaluated whether it is used or not.
unfoldable pub default_pty_options : Host → Option Keywords
unfolding default_unix default_win32
default_pty_options host = elim (host.expand (Term.binary (codes "~"))) [
  | none ↦ none
  | some home ↦ elim (host.os) [
    | Os.unix ↦ some (default_unix host home)
    | Os.win32 ↦ some (default_win32 host home)
  ]
]

-- Of the library: whether a key is there, the first value of a key, `nil` without one, and `Keyword.merge`,
-- which takes the new entries for every key that they have.
abbrev pub has_key : Key → Keywords → Bool
has_key k [] = false
has_key k ((j, t) ∷ opts) = same_key j k || has_key k opts

abbrev pub fetch : Keywords → Key → Term
fetch [] k = nil
fetch ((j, t) ∷ opts) k = if same_key j k then t else fetch opts k

abbrev pub without : Keywords → Keywords → Keywords
without [] new = []
without ((j, t) ∷ old) new = if has_key j new then without old new else (j, t) ∷ without old new

abbrev pub merge : Keywords → Keywords → Keywords
merge old new = without old new ++ new
