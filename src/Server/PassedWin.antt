-- ===== src/Server/PassedWin.antt =====
-- What `expty_spawn` and `expty_pty_connect` of c_src/win/conpty.cc read from the arguments that the server of
-- lib/expty.ex passes.
use ex_pty.Prelude.{ℕ, ◌≡◌, refl, true, some, List, [], ◌∷◌, map, Bytes, pos, is_positive, All}
use ex_pty.Enif.{Enif, IsLawful}
use ex_pty.Nif.Containers.{get_env}
use ex_pty.Win.Conpty.Spawn.{SpawnArgs, read_args}
use ex_pty.Win.Conpty.Connect.{accepted, read_args as read_connect_args}
use ex_pty.Server.CommandLine.{Text, args_to_command_line}
use ex_pty.Server.Reader.{fresh, arguments}
use ex_pty.Server.RoundTrip.{IsQuotable, arguments-args_to_command_line}
use ex_pty.Server.Terms.{Term, bool, binaries}
use ex_pty.Server.Spawning.{WinPack, win_args, connect_args, command_line}
use ex_pty.Server.Passed.{fits_int, IsPassed, argv_of, text-pass, int_pass, flag_pass}

-- The options that `expty_spawn` takes, with what it reads from each.
pub record IsTypedWin (utf8 : Text → Bytes) (o : WinPack) (program : Text) (argv : List Text)
    (a : SpawnArgs) : Type 0 where
  pub file : (o.file ≡ Term.binary program) × (utf8 program ≡ a.file)
  pub args : binaries o.args ≡ some argv
  pub cols : (o.cols ≡ Term.integer a.cols) × (fits_int a.cols ≡ true) × (is_positive a.cols ≡ true)
  pub rows : (o.rows ≡ Term.integer a.rows) × (fits_int a.rows ≡ true) × (is_positive a.rows ≡ true)
  pub debug : o.debug ≡ bool a.debug
  pub pipe_name : utf8 o.pipe_name ≡ a.pipe_name
  pub inherit_cursor : o.inherit_cursor ≡ bool a.inherit_cursor

command_line_lem :
    (o : WinPack) (file : Text) (args : List Text)
    → o.file ≡ Term.binary file
    → binaries o.args ≡ some args
    → command_line o.file o.args ≡ some (args_to_command_line file args)
unfolding command_line
command_line_lem o file args f a = rw (f, a, command_line) refl

module _ (e : Enif) (l : IsLawful e) (pass : Term → e.Term) (utf8 : Text → Bytes)
    (p : IsPassed e pass utf8) where
  win_args_lem :
      (o : WinPack) (file : Text) (args : List Text) (a : SpawnArgs)
      → IsTypedWin utf8 o file args a
      → read_args e (argv_of e (map pass (win_args o))) ≡ some a
  unfolding read_args win_args
  win_args_lem o file args a t =
      rw
        (
          t.file.0,
          text-pass e l pass utf8 p file,
          int_pass e l pass utf8 p t.cols.0 t.cols.1,
          int_pass e l pass utf8 p t.rows.0 t.rows.1,
          flag_pass e l pass utf8 p t.debug,
          text-pass e l pass utf8 p o.pipe_name,
          flag_pass e l pass utf8 p t.inherit_cursor,
          t.cols.2,
          t.rows.2,
          t.file.1,
          t.pipe_name,
          read_args,
        )
        refl

  connect_args_lem :
      (fuel : ℕ) (o : WinPack) (pty : ℕ) (line : Text) (envs : List Bytes)
      → fits_int (pos pty) ≡ true
      → get_env e fuel (pass o.env) [] ≡ some (true, envs)
      → read_connect_args e fuel (argv_of e (map pass (connect_args o pty line)))
        ≡ accepted
            (record { pty_id = pos pty; cmdline = utf8 line; cwd = utf8 o.cwd; env_strings = envs })
  unfolding read_connect_args connect_args
  connect_args_lem fuel o pty line envs f v =
      rw
        (
          int_pass e l pass utf8 p {n = pos pty} refl f,
          text-pass e l pass utf8 p line,
          text-pass e l pass utf8 p o.cwd,
          v,
          read_connect_args,
        )
        refl

  -- For a file and arguments none of which has a blank and stands between quotes already, options of the
  -- types that conpty.cc wants, sizes that are positive and that an `int` holds, as it does the id, and an
  -- environment that it can read: `expty_spawn` reads the six arguments of the server, and
  -- `expty_pty_connect` its four, each as it is and at its place; and the command line that it reads is one
  -- that a program reads as the file and the arguments.
  pub read_args-win_args :
      (fuel pty : ℕ) (o : WinPack) (file : Text) (args : List Text) (a : SpawnArgs)
      (envs : List Bytes)
      → IsTypedWin utf8 o file args a
      → All IsQuotable (file ∷ args)
      → fits_int (pos pty) ≡ true
      → get_env e fuel (pass o.env) [] ≡ some (true, envs)
      → (read_args e (argv_of e (map pass (win_args o))) ≡ some a)
        × (line : Text) × (command_line o.file o.args ≡ some line)
        × (arguments line fresh ≡ file ∷ args)
        × (read_connect_args e fuel (argv_of e (map pass (connect_args o pty line)))
            ≡ accepted (record {
              pty_id = pos pty;
              cmdline = utf8 line;
              cwd = utf8 o.cwd;
              env_strings = envs;
            }))
  read_args-win_args fuel pty o file args a envs t q f v = (
    win_args_lem o file args a t,
    args_to_command_line file args,
    command_line_lem o file args t.file.0 t.args,
    arguments-args_to_command_line file args q,
    connect_args_lem fuel o pty _ envs f v,
  )
