-- ===== src/Win/Conpty/Spawn.antt =====
-- `expty_spawn` of c_src/win/conpty.cc.
use ex_pty.Prelude.{
  ℕ, Bool, true, false, not, ◌&&◌, Option, none, some, [], ◌∷◌, ◌++◌, Bytes, codes, c_str, ℤ,
  is_positive, is_nonneg, if◌then◌else◌,
}
use ex_pty.Enif.{Enif}
use ex_pty.Nif.Make.{error, make_string}
use ex_pty.Nif.Scalars.{text, get_int, get_bool}
use ex_pty.Win.Path.{Wide}
use ex_pty.Win.PathUtil.{PathUtil}
use ex_pty.Win.Consoles.{short}
use ex_pty.Win.Conpty.State.{Event, Api, Baton, State, increment, signed32}
use ex_pty.Win.Conpty.Step.{
  Outcome, undefined, ends, Do, next, ◌>>=◌, ◌>>◌, give, emit, ask, or_return, unless, outcome,
}
use ex_pty.Win.Conpty.Pipes.{Console, create_console}

pub record SpawnArgs : Type 0 where
  pub file : Bytes
  pub cols : ℤ
  pub rows : ℤ
  pub debug : Bool
  pub pipe_name : Bytes
  pub inherit_cursor : Bool

module _ (e : Enif) where
  -- The condition; `none` if it fails.
  unfoldable pub read_args : (ℕ → e.Term) → Option SpawnArgs
  read_args argv = elim (text e (argv 0)) [
    | none ↦ none
    | some file ↦ elim (get_int e (argv 1)) [
      | none ↦ none
      | some cols ↦ elim (get_int e (argv 2)) [
        | none ↦ none
        | some rows ↦ elim (get_bool e (argv 3)) [
          | none ↦ none
          | some debug ↦ elim (text e (argv 4)) [
            | none ↦ none
            | some pipe_name ↦ elim (get_bool e (argv 5)) [
              | none ↦ none
              | some inherit_cursor ↦
                  if is_positive cols && is_positive rows
                  then some (record {
                    file = file;
                    cols = cols;
                    rows = rows;
                    debug = debug;
                    pipe_name = pipe_name;
                    inherit_cursor = inherit_cursor;
                  })
                  else none
            ]
          ]
        ]
      ]
    ]
  ]

abbrev pub is_empty : Wide → Bool
is_empty [] = true
is_empty (c ∷ name) = false

-- The constructor of `pty_baton`. The mutex comes with `expty_pty_connect`.
abbrev pub new_baton : ℕ → ℤ → ℕ → ℕ → ℕ → Wide → Wide → Baton
new_baton process id in_handle out_handle hpc in_name out_name = record {
  process = process;
  id = id;
  in_handle = in_handle;
  out_handle = out_handle;
  hpc = hpc;
  in_name = in_name;
  out_name = out_name;
  real_in = none;
  write_ready = false;
  locked = false;
  shell = none;
}

module _ (e : Enif) (u : PathUtil) (a : Api) where
  -- The program that a name stands for.
  unfoldable pub shell_path : Wide → Wide
  shell_path file = if a.path_is_relative (c_str file) then u.get_shell_path (c_str file) else file

  -- SetConsoleCtrlHandler, and the handles. Those that were never stored are read all the same.
  unfoldable pub use_console : ℤ × Console → Do e.Term (ℕ × ℕ × ℕ × Wide × Wide)
  use_console (code, console) = do
    emit Event.restore_ctrl_c
    unless (is_nonneg code) (error e (codes "Cannot launch conpty"))
    elim (console.in_handle) [
      | none ↦ λ s. ends undefined
      | some in_handle ↦ elim (console.out_handle) [
        | none ↦ λ s. ends undefined
        | some out_handle ↦ elim (console.hpc) [
          | none ↦ λ s. ends undefined
          | some hpc ↦ give (in_handle, out_handle, hpc, console.in_name, console.out_name)
        ]
      ]
    ]

  -- The pipes and the console.
  unfoldable pub launch : SpawnArgs → Do e.Term (ℕ × ℕ × ℕ × Wide × Wide)
  launch args = do
    result ←
        create_console a (record { x = short args.cols; y = short args.rows })
          (if args.inherit_cursor then 1 else 0) true (u.to_wstring args.pipe_name)
    use_console result

  -- InterlockedIncrement(&ptyCounter)
  abbrev pub take_id : Do e.Term ℤ
  take_id s = next (signed32 (increment s.counter)) (record s { counter = increment s.counter })

  -- ptyHandles.insert(ptyHandles.end(), new pty_baton(...))
  abbrev pub register : Baton → Do e.Term (Unit {0})
  register b s = next tt (record s { handles = s.handles ++ b ∷ [] })

  -- The handle and its registration, and the reply.
  unfoldable pub hand_over : ℕ → ℕ → ℕ → Wide → Wide → Do e.Term e.Term
  hand_over in_handle out_handle hpc in_name out_name = do
    id ← take_id
    process ← or_return (← ask a.alloc_pid) (error e (codes "Cannot allocate memory for ErlNifPid"))
    register (new_baton process id in_handle out_handle hpc in_name out_name)
    conin ←
        or_return (make_string e (a.to_bytes in_name))
          (error e (codes "Cannot allocate memory for coninPipeName"))
    conout ←
        or_return (make_string e (a.to_bytes out_name))
          (error e (codes "Cannot allocate memory for conoutPipeName"))
    give (e.make_tuple3 (e.make_int id) conin conout)

  -- The block under the condition.
  unfoldable pub spawn_with : SpawnArgs → Do e.Term e.Term
  spawn_with args = do
    let shellpath = shell_path (u.to_wstring args.file)
    unless (not (is_empty shellpath) && u.file_exists shellpath)
        (error e (codes "File not found: " ++ a.to_bytes shellpath))
    (in_handle, out_handle, hpc, in_name, out_name) ← launch args
    hand_over in_handle out_handle hpc in_name out_name

  -- Where the condition fails, a result that was never set is returned.
  unfoldable pub expty_spawn : (ℕ → e.Term) → State → Outcome e.Term
  expty_spawn argv s = elim (read_args e argv) [
    | none ↦ undefined
    | some args ↦ outcome (spawn_with args s)
  ]
