-- ===== src/Server/Init.antt =====
-- `init` of lib/expty.ex: from what `spawn` was given to the options that the server waits with.
use ex_pty.Prelude.{
  ℕ, Bool, false, Option, none, some, [], ◌∷◌, ◌++◌, pos, negsuc, codes, ◌==◌, if◌then◌else◌,
}
use ex_pty.Server.CommandLine.{Text}
use ex_pty.Server.Terms.{Term, nil, bool, or_else, is_boolean, is_binary, Exported}
use ex_pty.Server.Calls.{Os, Callback, same}
use ex_pty.Server.Options.{Key, Keywords, Host, default_pty_options, fetch, merge}
use ex_pty.Server.Spawning.{Pack}

-- What raises an exception: `Path.expand`, the text of a term, and the three tests of `init`.
pub data Reason : Type 0 where
  bad_path bad_text bad_flow_control bad_pause bad_resume : Reason

pub data Result {ℓ} (A : Type ℓ) : Type ℓ where
  ok : A → Result A
  raised : Reason → Result A

infixl 5 ◌>>=◌
abbrev pub ◌>>=◌ {ℓ κ} : {A : Type ℓ} {B : Type κ} → Result A → (A → Result B) → Result B
ok a >>= f = f a
raised r >>= f = raised r

abbrev pub or_raise {ℓ} : {A : Type ℓ} → Option A → Reason → Result A
or_raise none r = raised r
or_raise (some a) r = ok a

-- A function of `arity` arguments, or a module that has the function `name` with `checked` arguments.
unfoldable pub callback : Host → Exported → ℕ → ℕ → Term → Option Callback
callback host name arity checked (Term.function n f) =
    if n == arity then some (Callback.func f) else none
callback host name arity checked (Term.atom m) =
    if host.exported m name checked then some (Callback.module_ m) else none
callback host name arity checked t = none

-- `t == "utf-8"`
abbrev pub is_text : Text → Term → Bool
is_text text (Term.binary t) = same t text
is_text text t = false

-- `file` and `args` are what was given, `options` the merged ones, and `cwd` has been expanded.
unfoldable pub init_unix :
    Host → Term → Term → Keywords → Text → Option Callback → Option Callback → Result Pack
init_unix host file args options cwd on_data on_exit = do
  handle_flow_control ←
      or_raise (is_boolean (or_else (fetch options Key.handle_flow_control) (bool false)))
        Reason.bad_flow_control
  flow_control_pause ←
      or_raise
        (is_binary (or_else (fetch options Key.flow_control_pause) (Term.binary (0x13 ∷ []))))
        Reason.bad_pause
  flow_control_resume ←
      or_raise
        (is_binary (or_else (fetch options Key.flow_control_resume) (Term.binary (0x11 ∷ []))))
        Reason.bad_resume
  ok (
      Pack.unix (record {
        file = or_else file (Term.binary (codes "sh"));
        args = args;
        env = fetch options Key.env;
        cwd = cwd;
        cols = fetch options Key.cols;
        rows = fetch options Key.rows;
        ibaudrate = or_else (fetch options Key.ibaudrate) (Term.integer (pos 38400));
        obaudrate = or_else (fetch options Key.obaudrate) (Term.integer (pos 38400));
        uid = or_else (fetch options Key.uid) (Term.integer (negsuc 1));
        gid = or_else (fetch options Key.gid) (Term.integer (negsuc 1));
        is_utf8 = is_text (codes "utf-8") (fetch options Key.encoding);
        close_fds = or_else (fetch options Key.close_fds) (bool false);
        echo = or_else (fetch options Key.echo) (bool false);
        helper_path = host.helper_path;
        handle_flow_control = handle_flow_control;
        flow_control_pause = flow_control_pause;
        flow_control_resume = flow_control_resume;
        on_data = on_data;
        on_exit = on_exit;
      }))

-- `"#{pipe_name}-#{:rand.uniform(100_000_000)}"`
unfoldable pub full_pipe_name : Host → Term → Result Text
full_pipe_name host pipe_name = do
  prefix ← or_raise (host.to_string pipe_name) Reason.bad_text
  number ← or_raise (host.to_string (Term.integer (pos (host.uniform 100000000)))) Reason.bad_text
  ok (prefix ++ (codes "-" ++ number))

unfoldable pub init_win32 :
    Host → Term → Term → Keywords → Text → Option Callback → Option Callback → Result Pack
unfolding full_pipe_name
init_win32 host file args options cwd on_data on_exit = do
  pipe_name ←
      full_pipe_name host (or_else (fetch options Key.pipe_name) (Term.binary (codes "pipe")))
  ok (
      Pack.win32 (record {
        file = or_else file (Term.binary (codes "powershell.exe"));
        args = args;
        env = fetch options Key.env;
        cwd = cwd;
        cols = fetch options Key.cols;
        rows = fetch options Key.rows;
        debug = or_else (fetch options Key.debug) (bool false);
        pipe_name = pipe_name;
        inherit_cursor = or_else (fetch options Key.inherit_cursor) (bool false);
        on_data = on_data;
        on_exit = on_exit;
      }))

-- `init` behind the merge of the options. The module for `on_exit` is looked up with three arguments.
unfoldable pub init_with : Host → Term → Term → Keywords → Result Pack
unfolding init_unix init_win32 callback
init_with host file args options = do
  let args = or_else args Term.empty
  cwd ← or_raise (host.expand (fetch options Key.cwd)) Reason.bad_path
  let on_data = callback host Exported.on_data 3 3 (or_else (fetch options Key.on_data) nil)
  let on_exit = callback host Exported.on_exit 4 3 (or_else (fetch options Key.on_exit) nil)
  elim (host.os) [
    | Os.unix ↦ init_unix host file args options cwd on_data on_exit
    | Os.win32 ↦ init_win32 host file args options cwd on_data on_exit
  ]

unfoldable pub init : Host → Term → Term → Keywords → Result Pack
unfolding init_with
init host file args pty_options = do
  default_options ← or_raise (default_pty_options host) Reason.bad_path
  init_with host file args (merge default_options pty_options)
