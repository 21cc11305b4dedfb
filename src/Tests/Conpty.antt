-- ===== src/Tests/Conpty.antt =====
-- A console of which every call succeeds.
use ex_pty.Prelude.{
  ℕ, ◌≡◌, ◌≢◌, refl, true, false, none, some, List, [], ◌∷◌, Bytes, codes, pos, negsuc, length,
  arith, All, c_str,
}
use ex_pty.Nif.Make.{make_string}
use ex_pty.Nif.Scalars.{text, get_int, get_bool}
use ex_pty.Win.Path.{to_wstring}
use ex_pty.Win.PathUtil.{PathUtil, path_util}
use ex_pty.Win.Conpty.State.{Api, Baton, State, get_pty_baton}
use ex_pty.Win.Conpty.Step.{Outcome, returned, outcome}
use ex_pty.Win.Conpty.Pipes.{create_console, create_data_server_pipe}
use ex_pty.Win.Conpty.Spawn
use ex_pty.Win.Conpty.Spawn.{
  SpawnArgs, spawn_with, expty_spawn, shell_path, launch, use_console, hand_over,
}
use ex_pty.Win.Conpty.Ending.{Ending, conpty_spawn-Ending}
use ex_pty.Win.Conpty.Reached.{Reached, Reached-found}
use ex_pty.Win.Conpty.Connect.{ConnectArgs, connect_with, env_block, widen}
use ex_pty.Win.Conpty.Starts.{Result, asked_for, connect_with-Result}
use ex_pty.Win.Conpty.Block.{environment, meant, environment-widen}
use ex_pty.Win.Conpty.Writes.{WritesWithin, IsReady}
use ex_pty.Tests.Erl.{Erl, erl, args_of}
use ex_pty.Tests.Win.{windows}

abbrev pub api : Api
api = record {
  path_is_relative = λ p. false;
  to_bytes = λ p. p;
  create_pipe = λ h name. some 20;
  load_library = λ h. true;
  find_function = λ h. true;
  create_console = λ h size flags. (pos 0, 40);
  last_error = λ h. negsuc 0;
  alloc_pid = λ h. some 3;
  attribute_value = λ n thread input additive. n;
  init_attributes = λ h. true;
  update_attributes = λ h. true;
  create_process = λ h cmd. some (50, 4242);
  write_file = λ h pipe bytes. some (length bytes);
}

abbrev pub util : PathUtil
util = record {
  to_wstring = λ bytes. bytes;
  file_exists = λ name. true;
  get_shell_path = λ name. name;
}

abbrev empty : State
empty = record { trace = []; handles = []; counter = 0 }

abbrev shell : Baton
shell = record {
  process = 3;
  id = pos 1;
  in_handle = 20;
  out_handle = 20;
  hpc = 40;
  in_name = codes "in";
  out_name = codes "out";
  real_in = some 60;
  write_ready = true;
  locked = false;
  shell = none;
}

abbrev one_shell : State
one_shell = record { trace = []; handles = shell ∷ []; counter = 1 }

abbrev spawn_args : SpawnArgs
spawn_args = record {
  file = codes "cmd";
  cols = pos 80;
  rows = pos 24;
  debug = false;
  pipe_name = codes "expty";
  inherit_cursor = false;
}

conpty_spawn-Ending_example :
    Ending erl api
      (util.to_wstring spawn_args.pipe_name)
      empty
      (outcome (spawn_with erl util api spawn_args empty))
conpty_spawn-Ending_example = conpty_spawn-Ending erl util api spawn_args empty (λ h. refl)

abbrev state_of : Outcome Erl → State
state_of (returned t s) = s
state_of _ = empty

abbrev reply_of : Outcome Erl → Erl
reply_of (returned t s) = t
reply_of _ = Erl.badarg

abbrev spawn_argv : ℕ → Erl
spawn_argv = args_of (
    Erl.binary (codes "cmd")
    ∷ Erl.int (pos 80)
    ∷ Erl.int (pos 24)
    ∷ Erl.atom (codes "false")
    ∷ Erl.binary (codes "expty")
    ∷ Erl.atom (codes "false")
    ∷ [])

abbrev spawned : Outcome Erl
spawned = expty_spawn erl util api spawn_argv empty

-- The call has registered a handle.
spawned_one : length (state_of spawned).handles ≡ 1
unfolding expty_spawn Spawn.read_args spawn_with shell_path launch use_console create_console
    create_data_server_pipe hand_over text get_int get_bool codes make_string
spawned_one = refl

reached : Reached erl util api 0 1 (state_of spawned)
unfolding expty_spawn Spawn.read_args spawn_with shell_path launch use_console create_console
    create_data_server_pipe hand_over text get_int get_bool codes make_string
reached = Reached.spawns spawn_argv (reply_of spawned) (Reached.loaded []) refl

Reached-found_example :
    All (λ b. get_pty_baton b.id (state_of spawned).handles ≡ some b) (state_of spawned).handles
Reached-found_example = Reached-found erl util api 0 (λ h. refl) (omega arith) reached

abbrev connect_args : ConnectArgs
connect_args = record {
  pty_id = pos 1;
  cmdline = codes "cmd /c dir";
  cwd = codes "C:";
  env_strings = codes "A=1" ∷ [];
}

found : get_pty_baton (pos 1) one_shell.handles ≡ some shell
unfolding get_pty_baton
found = refl

connect_with-Result_example :
    Result erl connect_args
      (asked_for util connect_args)
      shell
      one_shell
      (outcome (connect_with erl util api connect_args one_shell))
connect_with-Result_example = connect_with-Result erl util api connect_args one_shell shell found

abbrev texts : List Bytes
texts = codes "A=1" ∷ codes "B=2" ∷ []

not_empty : All (λ s. to_wstring windows s ≢ []) texts
unfolding to_wstring c_str codes
not_empty = ((λ e. absurd (ground arith)), ((λ e. absurd (ground arith)), tt))

environment-widen_example :
    environment 3 [] (env_block (widen (path_util windows) texts))
    ≡ some (meant [] (widen (path_util windows) texts))
environment-widen_example = environment-widen windows [] texts not_empty

abbrev write_argv : ℕ → Erl
write_argv = args_of (Erl.int (pos 1) ∷ Erl.binary (codes "dir") ∷ [])

writes_within : WritesWithin api
writes_within h pipe bytes n e = ground arith

is_ready : IsReady one_shell (pos 1) shell 60
is_ready = record { found = found; ready = refl; free = refl; real_in = refl }

abbrev resize_argv : ℕ → Erl
resize_argv = args_of (Erl.int (pos 1) ∷ Erl.int (pos 100) ∷ Erl.int (pos 40) ∷ [])
