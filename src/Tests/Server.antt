-- ===== src/Tests/Server.antt =====
-- A command line, and the program that is spawned with it on Windows.
use ex_pty.Prelude.{pos, ◌≡◌, refl, true, false, none, List, [], ◌∷◌, codes}
use ex_pty.Server.CommandLine.{
  Text, repeat_text, needs_quotes, escape_char, escape, close_arg, append_arg,
  args_to_command_line_impl, args_to_command_line,
}
use ex_pty.Server.Reader.{fresh, read_char, arguments}
use ex_pty.Server.RoundTrip.{arguments-args_to_command_line}
use ex_pty.Server.Calls.{Callback, Request, Message, Input}
use ex_pty.Server.Spawning.{WinPack, Pack, NifReply, Nif, do_spawn}
use ex_pty.Server.Started.{Ending, do_spawn-Ending}
use ex_pty.Server.Terms.{Term, bool, binaries}
use ex_pty.Server.FlowControl.{unheld}

-- A backslash and a quote in an argument with a space, an empty one, and a path that ends in a backslash.
abbrev pub args : List Text
args = codes "say \\\"hi" ∷ codes "" ∷ codes "C:\\" ∷ []

arguments-args_to_command_line_example :
    arguments (args_to_command_line (codes "cmd.exe") args) fresh ≡ codes "cmd.exe" ∷ args
unfolding codes
arguments-args_to_command_line_example =
    arguments-args_to_command_line (codes "cmd.exe") args (refl, (refl, (refl, (refl, tt))))

line : args_to_command_line (codes "cmd.exe") args ≡ codes "cmd.exe \"say \\\\\\\"hi\" \"\" C:\\"
unfolding args_to_command_line args_to_command_line_impl append_arg close_arg escape escape_char
    needs_quotes repeat_text codes
line = refl

-- An argument between quotes with a space inside is read as two.
split :
    arguments (args_to_command_line (codes "cmd.exe") (codes "\"a b\"" ∷ [])) fresh
    ≡ codes "cmd.exe" ∷ codes "\"a" ∷ codes "b\"" ∷ []
unfolding arguments read_char args_to_command_line args_to_command_line_impl append_arg close_arg
    escape escape_char needs_quotes repeat_text codes
split = refl

abbrev args_term : Term
args_term =
    Term.cell (Term.binary (codes "say \\\"hi"))
      (Term.cell (Term.binary (codes "")) (Term.cell (Term.binary (codes "C:\\")) Term.empty))

abbrev pub inputs : List Input
inputs =
    Input.call (Request.write (codes "ls"))
    ∷ Input.info (Message.data_ (codes "one"))
    ∷ Input.call (Request.update_on_data (Callback.func 1))
    ∷ Input.call (Request.set_flow_control true)
    ∷ Input.call (Request.write (codes "pwd"))
    ∷ Input.info (Message.data_ (codes "two"))
    ∷ []

unheld_one : unheld false inputs ≡ codes "ls" ∷ []
unheld_one = refl

abbrev pub pack : WinPack
pack = record {
  file = Term.binary (codes "cmd.exe");
  args = args_term;
  env = Term.opaque 0;
  cwd = codes "C:";
  cols = Term.integer (pos 80);
  rows = Term.integer (pos 24);
  debug = bool false;
  pipe_name = codes "pipe-1";
  inherit_cursor = bool false;
  on_data = none;
  on_exit = none;
}

abbrev pub nif : Nif
nif = record {
  spawn_unix = λ args. NifReply.gives (7, pos 4242, codes "/dev/pts/5");
  spawn_win32 = λ args. NifReply.gives (1, codes "in", codes "out");
  connect_win32 = λ args. NifReply.gives (pos 4242);
}

do_spawn-Ending_example : Ending nif pack (codes "cmd.exe") args (do_spawn nif (Pack.win32 pack))
unfolding codes binaries
do_spawn-Ending_example =
    do_spawn-Ending nif pack (codes "cmd.exe") args refl refl (refl, (refl, (refl, (refl, tt))))
