-- ===== src/Tests/PassedWin.antt =====
-- The options of a server on Windows, as its NIF reads them.
use ex_pty.Prelude.{◌≡◌, refl, false, some, [], ◌∷◌, pos, map, codes}
use ex_pty.Tests.Server.{pack, args}
use ex_pty.Tests.Session.{pass, pass-IsPassed}
use ex_pty.Tests.Erl.{erl, erl-IsLawful}
use ex_pty.Nif.Containers.{get_env, get_env_loop}
use ex_pty.Win.Conpty.Spawn.{SpawnArgs, read_args}
use ex_pty.Win.Conpty.Connect.{accepted, read_args as read_connect_args}
use ex_pty.Server.CommandLine.{Text}
use ex_pty.Server.Reader.{fresh, arguments}
use ex_pty.Server.Terms.{binaries}
use ex_pty.Server.Spawning.{win_args, connect_args, command_line}
use ex_pty.Server.Passed.{argv_of}
use ex_pty.Server.PassedWin.{IsTypedWin, read_args-win_args}

abbrev wanted : SpawnArgs
wanted = record {
  file = codes "cmd.exe";
  cols = pos 80;
  rows = pos 24;
  debug = false;
  pipe_name = codes "pipe-1";
  inherit_cursor = false;
}

pack-IsTypedWin : IsTypedWin (λ t. t) pack (codes "cmd.exe") args wanted
unfolding binaries
pack-IsTypedWin = record {
  file = (refl, refl);
  args = refl;
  cols = (refl, refl, refl);
  rows = (refl, refl, refl);
  debug = refl;
  pipe_name = refl;
  inherit_cursor = refl;
}

read_args-win_args_example :
    (read_args erl (argv_of erl (map pass (win_args pack))) ≡ some wanted)
    × (line : Text) × (command_line pack.file pack.args ≡ some line)
    × (arguments line fresh ≡ codes "cmd.exe" ∷ args)
    × (read_connect_args erl 1 (argv_of erl (map pass (connect_args pack 1 line)))
        ≡ accepted (record { pty_id = pos 1; cmdline = line; cwd = codes "C:"; env_strings = [] }))
unfolding codes get_env get_env_loop
read_args-win_args_example =
    read_args-win_args erl erl-IsLawful pass (λ t. t) pass-IsPassed 1 1 pack (codes "cmd.exe") args
      wanted [] pack-IsTypedWin (refl, (refl, (refl, (refl, tt)))) refl refl
