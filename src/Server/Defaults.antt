-- ===== src/Server/Defaults.antt =====
-- What a server of lib/expty.ex without options and configuration has `expty_spawn` (c_src/unix/pty.cpp) read.
use ex_pty.Prelude.{
  ℕ, ◌≡◌, refl, ◌∙◌, ap, true, false, none, some, List, [], ◌∷◌, map, Bytes, pos, negsuc, codes,
  arith,
}
use ex_pty.Enif.{Enif, IsLawful}
use ex_pty.Nif.Containers.{get_env}
use ex_pty.Unix.Spawn.Args.{value, SpawnArgs, read_args}
use ex_pty.Server.CommandLine.{Text}
use ex_pty.Server.Terms.{Term, nil, bool, or_else, binaries, Exported}
use ex_pty.Server.Calls.{Os}
use ex_pty.Server.Options.{Key, Keywords, Host, get_env as config_env, default_unix, fetch, merge}
use ex_pty.Server.Spawning.{UnixPack, Pack, unix_args}
use ex_pty.Server.Init.{Result, callback, init_unix, init}
use ex_pty.Server.Merged.{fetch-merge, options_lem, init_with_lem}
use ex_pty.Server.Passed.{IsPassed, IsTyped, argv_of, read_args-unix_args}

abbrev pub default_pack : Host → Text → Text → Term → UnixPack
default_pack host cwd file args = record {
  file = Term.binary file;
  args = or_else args Term.empty;
  env = host.system_env;
  cwd = cwd;
  cols = Term.integer (pos 80);
  rows = Term.integer (pos 24);
  ibaudrate = Term.integer (pos 38400);
  obaudrate = Term.integer (pos 38400);
  uid = Term.integer (negsuc 1);
  gid = Term.integer (negsuc 1);
  is_utf8 = true;
  close_fds = bool false;
  echo = bool false;
  helper_path = host.helper_path;
  handle_flow_control = false;
  flow_control_pause = 0x13 ∷ [];
  flow_control_resume = 0x11 ∷ [];
  on_data = callback host Exported.on_data 3 3 nil;
  on_exit = callback host Exported.on_exit 4 3 nil;
}

-- The values of the options where nobody sets any.
abbrev default_of : Host → Text → Key → Term
default_of host home Key.env = host.system_env
default_of host home Key.cwd = Term.binary home
default_of host home Key.cols = Term.integer (pos 80)
default_of host home Key.rows = Term.integer (pos 24)
default_of host home Key.ibaudrate = Term.integer (pos 38400)
default_of host home Key.obaudrate = Term.integer (pos 38400)
default_of host home Key.name = Term.binary (codes "xterm-color")
default_of host home Key.echo = bool false
default_of host home Key.encoding = Term.binary (codes "utf-8")
default_of host home Key.handle_flow_control = bool false
default_of host home Key.flow_control_pause = Term.binary (0x13 ∷ [])
default_of host home Key.flow_control_resume = Term.binary (0x11 ∷ [])
default_of host home k = nil

module _ (host : Host) (home cwd : Text) (c : (k : Key) → host.config k ≡ none) where
  config_default : (k : Key) (t : Term) → config_env host k t ≡ t
  config_default k t = rw (c k, config_env) refl

  fetch-default : (k : Key) → fetch (default_unix host home) k ≡ default_of host home k
  unfolding default_unix
  fetch-default Key.name = config_default Key.name _
  fetch-default Key.cols = config_default Key.cols _
  fetch-default Key.rows = config_default Key.rows _
  fetch-default Key.env = config_default Key.env _
  fetch-default Key.cwd = config_default Key.cwd _
  fetch-default Key.echo = config_default Key.echo _
  fetch-default Key.encoding = config_default Key.encoding _
  fetch-default Key.handle_flow_control = config_default Key.handle_flow_control _
  fetch-default Key.flow_control_pause = config_default Key.flow_control_pause _
  fetch-default Key.flow_control_resume = config_default Key.flow_control_resume _
  fetch-default (Key.unknown n) = ground arith
  fetch-default _ = refl

  module _ (options : Keywords)
      (same_default : (k : Key) → fetch options k ≡ default_of host home k) where
    init_unix_lem :
        (file : Text) (args : Term)
        → init_unix host
            (Term.binary file)
            (or_else args Term.empty)
            options
            cwd
            (callback host Exported.on_data 3 3 (or_else (fetch options Key.on_data) nil))
            (callback host Exported.on_exit 4 3 (or_else (fetch options Key.on_exit) nil))
          ≡ Result.ok (Pack.unix (default_pack host cwd file args))
    unfolding init_unix codes
    init_unix_lem file args =
        rw
          (
            same_default Key.handle_flow_control,
            same_default Key.flow_control_pause,
            same_default Key.flow_control_resume,
            same_default Key.env,
            same_default Key.cols,
            same_default Key.rows,
            same_default Key.encoding,
            same_default Key.echo,
            same_default Key.ibaudrate,
            same_default Key.obaudrate,
            same_default Key.uid,
            same_default Key.gid,
            same_default Key.close_fds,
            same_default Key.on_data,
            same_default Key.on_exit,
          )
          refl

  init-default :
      (file : Text) (args : Term)
      → host.os ≡ Os.unix
      → host.expand (Term.binary (codes "~")) ≡ some home
      → host.expand (Term.binary home) ≡ some cwd
      → init host (Term.binary file) args []
        ≡ Result.ok (Pack.unix (default_pack host cwd file args))
  unfolding init
  init-default file args u h w =
      let options = merge (default_unix host home) [] in
      let q = fetch-merge (default_unix host home) [] in
      rw (options_lem host home u h, init)
        (init_with_lem host home [] options q (Term.binary file) args cwd u
            (ap host.expand (fetch-default Key.cwd) ∙ w)
          ∙ init_unix_lem options (λ k. q k ∙ fetch-default k) file args)

binaries-or_else :
    (args : Term) (texts : List Text)
    → binaries args ≡ some texts
    → binaries (or_else args Term.empty) ≡ some texts
unfolding binaries
binaries-or_else Term.empty texts h = h
binaries-or_else (Term.cell head tail) texts h = h
binaries-or_else (Term.atom a) texts h = absurd (ground arith)
binaries-or_else _ texts h = absurd (ground arith)

-- What `expty_spawn` reads then.
abbrev pub default_args : (Text → Bytes) → Host → Text → Text → List Text → List Bytes → SpawnArgs
default_args utf8 host cwd file texts envs = record {
  file = utf8 file;
  args = map utf8 texts;
  envs = envs;
  cwd = utf8 cwd;
  cols = pos 80;
  rows = pos 24;
  ibaudrate = pos 38400;
  obaudrate = pos 38400;
  uid = negsuc 1;
  gid = negsuc 1;
  is_utf8 = true;
  close_fds = false;
  echo = false;
  helper_path = utf8 host.helper_path;
}

default-IsTyped :
    (utf8 : Text → Bytes) (host : Host) (cwd file : Text) (args : Term) (texts : List Text)
    (envs : List Bytes)
    → binaries args ≡ some texts
    → IsTyped utf8 (default_pack host cwd file args) (default_args utf8 host cwd file texts envs)
default-IsTyped utf8 host cwd file args texts envs b = record {
  file = (file, refl, refl);
  args = (texts, binaries-or_else args texts b, refl);
  cwd = refl;
  cols = (refl, refl, refl);
  rows = (refl, refl, refl);
  ibaudrate = (refl, refl, refl);
  obaudrate = (refl, refl, refl);
  uid = (refl, refl);
  gid = (refl, refl);
  is_utf8 = refl;
  close_fds = refl;
  echo = refl;
  helper_path = refl;
}

-- On Unix, for a file that is a binary and a list of binaries, with neither options nor configuration, a
-- home directory and an environment that the NIF can read, `init` succeeds, and `expty_spawn` accepts the
-- arguments that the server then passes: the file and its arguments, the environment and the home
-- directory, 80 columns and 24 rows at 38400 baud, the user and group of the caller, UTF-8, no echo and no
-- descriptors closed.
pub read_args-default_pack :
    (e : Enif) (pass : Term → e.Term) (utf8 : Text → Bytes) (host : Host) (home cwd file : Text)
    (args : Term) (texts : List Text) (fuel : ℕ) (envs : List Bytes)
    → IsLawful e
    → IsPassed e pass utf8
    → host.os ≡ Os.unix
    → ((k : Key) → host.config k ≡ none)
    → host.expand (Term.binary (codes "~")) ≡ some home
    → host.expand (Term.binary home) ≡ some cwd
    → binaries args ≡ some texts
    → get_env e fuel (pass host.system_env) [] ≡ some (true, envs)
    → (o : UnixPack) × (init host (Term.binary file) args [] ≡ Result.ok (Pack.unix o))
      × (read_args e fuel (argv_of e (map pass (unix_args o)))
          ≡ value (default_args utf8 host cwd file texts envs))
read_args-default_pack e pass utf8 host home cwd file args texts fuel envs l p u c h w b v = (
  default_pack host cwd file args,
  init-default host home cwd c file args u h w,
  read_args-unix_args e l pass utf8 p fuel (default_pack host cwd file args) _
      (default-IsTyped utf8 host cwd file args texts envs b) v,
)
