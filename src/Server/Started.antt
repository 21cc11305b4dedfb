-- ===== src/Server/Started.antt =====
-- What the spawning of lib/expty.ex starts on Windows.
use ex_pty.Prelude.{ℕ, ◌≡◌, refl, some, ◌⊎◌, inl, inr, ◌∷◌, List, ℤ, All}
use ex_pty.Server.CommandLine.{Text, args_to_command_line}
use ex_pty.Server.Reader.{fresh, arguments}
use ex_pty.Server.RoundTrip.{IsQuotable, arguments-args_to_command_line}
use ex_pty.Server.Terms.{Term, binaries}
use ex_pty.Server.Spawning.{
  WinPack, Pack, NifReply, gives, error, other, raises, Nif, Spawned, spawned, refused, crash,
  win_args, connect_args, win_state, command_line, connect_win32, spawn_win32, do_spawn,
}

-- A reply that is neither a process nor an exception.
abbrev pub IsRefusal : NifReply ℤ → Type 0
IsRefusal (gives inner_pid) = ⊥
IsRefusal (error reason) = Unit
IsRefusal (other t) = Unit
IsRefusal raises = ⊥

-- The NIF has opened the terminal `pty`, and `line` is a command line for the file and the arguments.
abbrev pub Opened : Nif → WinPack → Text → List Text → ℕ → Text → Type 0
Opened nif o file args pty line =
    (conin : Text) × (conout : Text) × (nif.spawn_win32 (win_args o) ≡ gives (pty, conin, conout))
    × (arguments line fresh ≡ file ∷ args)

-- The replies of the NIF and what the server makes of them. The process is started at the terminal that was
-- opened, with a command line that is read as the file and the arguments of the options.
abbrev pub Ending : Nif → WinPack → Text → List Text → Spawned → Type 0
Ending nif o file args (spawned inner_pid s) =
    (pty : ℕ) × (line : Text) × Opened nif o file args pty line
    × (nif.connect_win32 (connect_args o pty line) ≡ gives inner_pid)
    × (s ≡ win_state o pty)
Ending nif o file args (refused r p) =
    (p ≡ Pack.win32 o)
    × (((reason : Text) × (nif.spawn_win32 (win_args o) ≡ error reason) × (r ≡ error reason))
        ⊎ ((pty : ℕ) × (line : Text) × Opened nif o file args pty line
            × (nif.connect_win32 (connect_args o pty line) ≡ r)
            × IsRefusal r))
Ending nif o file args crash =
    ((t : ℕ) × (nif.spawn_win32 (win_args o) ≡ other t))
    ⊎ ((nif.spawn_win32 (win_args o) ≡ raises)
        ⊎ ((pty : ℕ) × (line : Text) × Opened nif o file args pty line
            × (nif.connect_win32 (connect_args o pty line) ≡ raises)))

module _ (nif : Nif) (o : WinPack) (file : Text) (args : List Text) (f : o.file ≡ Term.binary file)
    (a : binaries o.args ≡ some args) (q : All IsQuotable (file ∷ args)) where
  line_lem : command_line o.file o.args ≡ some (args_to_command_line file args)
  unfolding command_line
  line_lem = rw (f, a, command_line) refl

  connected :
      (pty : ℕ) (conin conout : Text) (r : NifReply ℤ)
      → nif.spawn_win32 (win_args o) ≡ gives (pty, conin, conout)
      → nif.connect_win32 (connect_args o pty (args_to_command_line file args)) ≡ r
      → Ending nif o file args (connect_win32 nif o pty)
  unfolding connect_win32
  connected pty conin conout (gives inner_pid) g h =
      let opened : Opened nif o file args pty (args_to_command_line file args) =
        (conin, conout, g, arguments-args_to_command_line file args q) in
      rw (line_lem, h, connect_win32, Ending) (pty, args_to_command_line file args, opened, h, refl)
  connected pty conin conout (error reason) g h =
      let opened : Opened nif o file args pty (args_to_command_line file args) =
        (conin, conout, g, arguments-args_to_command_line file args q) in
      rw (line_lem, h, connect_win32, Ending)
        (refl, inr (pty, args_to_command_line file args, opened, h, tt))
  connected pty conin conout (other t) g h =
      let opened : Opened nif o file args pty (args_to_command_line file args) =
        (conin, conout, g, arguments-args_to_command_line file args q) in
      rw (line_lem, h, connect_win32, Ending)
        (refl, inr (pty, args_to_command_line file args, opened, h, tt))
  connected pty conin conout raises g h =
      let opened : Opened nif o file args pty (args_to_command_line file args) =
        (conin, conout, g, arguments-args_to_command_line file args q) in
      rw (line_lem, h, connect_win32, Ending)
        (inr (inr (pty, args_to_command_line file args, opened, h)))

  spawned-Ending :
      (r : NifReply (ℕ × Text × Text))
      → nif.spawn_win32 (win_args o) ≡ r
      → Ending nif o file args (spawn_win32 nif o)
  unfolding spawn_win32
  spawned-Ending (gives (pty, conin, conout)) g =
      rw (g, spawn_win32) (connected pty conin conout _ g refl)
  spawned-Ending (error reason) g = rw (g, spawn_win32, Ending) (refl, inl (reason, g, refl))
  spawned-Ending (other t) g = rw (g, spawn_win32, Ending) (inl (t, g))
  spawned-Ending raises g = rw (g, spawn_win32, Ending) (inr (inl g))

  -- On Windows, for a file that is a binary and a list of binaries, none of which has a blank and stands
  -- between quotes already, the server spawns the program at the terminal that the NIF has opened, with a
  -- command line that is read as that file and those arguments; or it keeps its options and replies the
  -- error of the NIF when that opens no terminal, or what the NIF says, other than a process, when it is
  -- asked to start the program at the terminal that it has opened; or it ends, where the NIF raises an
  -- exception, or opens no terminal and tells no error.
  pub do_spawn-Ending : Ending nif o file args (do_spawn nif (Pack.win32 o))
  unfolding do_spawn
  do_spawn-Ending = spawned-Ending _ refl
