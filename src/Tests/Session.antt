-- ===== src/Tests/Session.antt =====
-- A server from its options to its end, and the NIF that reads them.
use ex_pty.Prelude.{
  ◌⊎◌, ◌⊎◌, arith, pos, ◌≡◌, refl, true, false, none, some, List, [], ◌∷◌, Bytes, codes, ◌↔◌, map,
  Option, Bool,
}
use ex_pty.Tests.Server.{inputs, nif, pack}
use ex_pty.Tests.Erl.{Erl, erl, erl-IsLawful}
use ex_pty.Nif.Containers.{get_env, get_env_loop}
use ex_pty.Unix.Spawn.Args.{value, SpawnArgs, read_args}
use ex_pty.Unix.Sys.{Sys, Image, returned, undefined}
use ex_pty.Unix.History.{images}
use ex_pty.Unix.Spawn.Early.{fails_early}
use ex_pty.Unix.Spawn.Run.{expty_spawn}
use ex_pty.Unix.Helper.Start.{IsPlain}
use ex_pty.Server.Programs.{Becomes, expty_spawn-Becomes}
use ex_pty.Tests.Machine.{linux, kernel, empty_sys}
use ex_pty.Tests.Digits.{decimal, decimal-ReadsBack}
use ex_pty.Tests.Helper.{host as helper_host, host-Succeeds as helper_host-Succeeds}
use ex_pty.Server.CommandLine.{Text}
use ex_pty.Server.Terms.{Atom, Term, bool, binaries}
use ex_pty.Server.Calls.{Os, Request, Callback, Message, Event}
use ex_pty.Server.Options.{Key, Keywords, Host, default_pty_options}
use ex_pty.Server.Spawning.{UnixPack, Pack, win_state, unix_args}
use ex_pty.Server.Init.{Reason, Result, init, init_with, init_unix}
use ex_pty.Server.Session.{Incoming, running, ended, serve, Spawn, spawn}
use ex_pty.Server.Serving.{has_fatal, serve-ended_iff}
use ex_pty.Server.Served.{IsServed, spawn-IsServed}
use ex_pty.Server.Passed.{IsPassed, IsTyped, argv_of, read_args-unix_args}
use ex_pty.Server.Defaults.{default_args, read_args-default_pack}

abbrev path : Term → Option Text
path (Term.binary t) = some t
path t = none

abbrev host : Host
host = record {
  os = Os.unix;
  config = λ k. none;
  system_env = Term.opaque 0;
  expand = path;
  to_string = path;
  exported = λ m f n. false;
  uniform = λ n. 1;
  helper_path = codes "/lib/spawn-helper";
}

abbrev opts : Keywords
opts = (Key.cols, Term.integer (pos 132)) ∷ (Key.handle_flow_control, bool true) ∷ []

spawn-IsServed_example :
    IsServed host nif
      (λ ev. true)
      (codes "~")
      opts
      (init host (Term.binary (codes "ls")) Term.empty opts)
      inputs
      (spawn host nif (Term.binary (codes "ls")) Term.empty opts)
spawn-IsServed_example =
    spawn-IsServed host nif (λ ev. true) (codes "~") (Term.binary (codes "ls")) Term.empty opts
      inputs (λ ev. refl) (tt, (tt, (tt, (tt, (tt, (tt, tt)))))) refl refl

-- A value that is no flag.
bad_flow_control_lem :
    spawn host nif
      (Term.binary (codes "ls"))
      Term.empty
      ((Key.handle_flow_control, Term.integer (pos 1)) ∷ [])
    ≡ (Spawn.not_started Reason.bad_flow_control, none)
unfolding spawn init init_with init_unix default_pty_options codes
bad_flow_control_lem = refl

abbrev requests : List Incoming
requests =
    Incoming.call (Request.update_on_exit (Callback.func 1))
    ∷ Incoming.info (Message.data_ (codes "one"))
    ∷ Incoming.info (Message.exit (pos 0) (pos 0))
    ∷ []

-- A callback with too few arguments.
abbrev no_exits : Event → Bool
no_exits (Event.on_exit callback code signal) = false
no_exits _ = true

serve-ended_iff_example :
    (serve nif no_exits requests (running (win_state pack 1)) ≡ ended)
    ↔ (has_fatal no_exits Os.win32 none none requests ≡ true)
serve-ended_iff_example = serve-ended_iff nif no_exits requests (win_state pack 1)

abbrev atom_name : Atom → Bytes
atom_name Atom.nil_ = codes "nil"
atom_name Atom.false_ = codes "false"
atom_name Atom.true_ = codes "true"
atom_name (Atom.named n) = n ∷ []

-- An environment is passed as a map without pairs.
abbrev pub pass : Term → Erl
pass (Term.atom a) = Erl.atom (atom_name a)
pass (Term.integer n) = Erl.int n
pass (Term.binary t) = Erl.binary t
pass Term.empty = Erl.nil
pass (Term.cell head tail) = Erl.cons (pass head) (pass tail)
pass (Term.opaque n) = Erl.pairs Erl.nil
pass t = Erl.badarg

pub pass-IsPassed : IsPassed erl pass (λ t. t)
pass-IsPassed = record {
  binary_bytes = λ t. refl;
  true_atom = refl;
  false_atom = refl;
  integer_value = λ n h. refl;
  empty_length = refl;
  empty_cell = refl;
  cell_length = λ head tail n h. ground arith;
  cell_cell = λ head tail. refl;
}

abbrev file_args : Term
file_args = Term.cell (Term.binary (codes "-l")) Term.empty

read_args-default_pack_example :
    (o : UnixPack) × (init host (Term.binary (codes "ls")) file_args [] ≡ Result.ok (Pack.unix o))
    × (read_args erl 1 (argv_of erl (map pass (unix_args o)))
        ≡ value (default_args (λ t. t) host (codes "~") (codes "ls") (codes "-l" ∷ []) []))
unfolding binaries get_env get_env_loop
read_args-default_pack_example =
    read_args-default_pack erl pass (λ t. t) host (codes "~") (codes "~") (codes "ls") file_args
      (codes "-l" ∷ []) 1 [] erl-IsLawful pass-IsPassed refl (λ k. refl) refl refl refl refl

abbrev wanted : SpawnArgs
wanted = record {
  file = codes "ls";
  args = codes "-l" ∷ [];
  envs = [];
  cwd = codes "/tmp";
  cols = pos 132;
  rows = pos 43;
  ibaudrate = pos 9600;
  obaudrate = pos 19200;
  uid = pos 1000;
  gid = pos 100;
  is_utf8 = false;
  close_fds = true;
  echo = true;
  helper_path = codes "/lib/spawn-helper";
}

abbrev asked_pack : UnixPack
asked_pack = record {
  file = Term.binary (codes "ls");
  args = file_args;
  env = Term.opaque 0;
  cwd = codes "/tmp";
  cols = Term.integer (pos 132);
  rows = Term.integer (pos 43);
  ibaudrate = Term.integer (pos 9600);
  obaudrate = Term.integer (pos 19200);
  uid = Term.integer (pos 1000);
  gid = Term.integer (pos 100);
  is_utf8 = false;
  close_fds = bool true;
  echo = bool true;
  helper_path = codes "/lib/spawn-helper";
  handle_flow_control = false;
  flow_control_pause = [];
  flow_control_resume = [];
  on_data = none;
  on_exit = none;
}

asked_pack-IsTyped : IsTyped (λ t. t) asked_pack wanted
unfolding binaries
asked_pack-IsTyped = record {
  file = (codes "ls", refl, refl);
  args = (codes "-l" ∷ [], refl, refl);
  cwd = refl;
  cols = (refl, refl, refl);
  rows = (refl, refl, refl);
  ibaudrate = (refl, refl, refl);
  obaudrate = (refl, refl, refl);
  uid = (refl, refl);
  gid = (refl, refl);
  is_utf8 = refl;
  close_fds = refl;
  echo = refl;
  helper_path = refl;
}

read_args-unix_args_example :
    read_args erl 1 (argv_of erl (map pass (unix_args asked_pack))) ≡ value wanted
unfolding get_env get_env_loop
read_args-unix_args_example =
    read_args-unix_args erl erl-IsLawful pass (λ t. t) pass-IsPassed 1 asked_pack wanted
      asked_pack-IsTyped refl

wanted-IsPlain : IsPlain wanted
unfolding codes
wanted-IsPlain = record {
  file = ((λ e. absurd (omega arith)), ((λ e. absurd (omega arith)), tt));
  cwd = (
    (λ e. absurd (omega arith)),
    ((λ e. absurd (omega arith)), ((λ e. absurd (omega arith)), ((λ e. absurd (omega arith)), tt))),
  );
  args = (((λ e. absurd (omega arith)), ((λ e. absurd (omega arith)), tt)), tt);
}

expty_spawn-Becomes_example :
    let call =
      expty_spawn erl decimal linux kernel 1
        (argv_of erl (map pass (unix_args asked_pack)))
        empty_sys in
    ((fails_early linux kernel wanted empty_sys ≡ true) × (call ≡ undefined))
    ⊎ ((fails_early linux kernel wanted empty_sys ≡ false)
        × (t : Erl) × (s' : Sys) × (call ≡ returned t s')
        × ((images s'.trace ≡ [])
            ⊎ ((image : Image) × (images s'.trace ≡ image ∷ [])
                × Becomes decimal linux kernel helper_host 256 wanted empty_sys image)))
unfolding get_env get_env_loop
expty_spawn-Becomes_example =
    expty_spawn-Becomes erl pass (λ t. t) decimal linux kernel helper_host 256 1 asked_pack wanted
      empty_sys erl-IsLawful pass-IsPassed asked_pack-IsTyped refl decimal-ReadsBack wanted-IsPlain
      helper_host-Succeeds
