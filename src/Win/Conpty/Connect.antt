-- ===== src/Win/Conpty/Connect.antt =====
-- `expty_pty_connect` of c_src/win/conpty.cc, with the environment block.
use ex_pty.Prelude.{
  ℕ, true, false, Option, none, some, List, [], ◌∷◌, ◌++◌, Bytes, codes, c_str, ℤ, pos,
}
use ex_pty.Enif.{Enif}
use ex_pty.Nif.Make.{atom, error}
use ex_pty.Nif.Scalars.{text, get_int}
use ex_pty.Nif.Containers.{get_env}
use ex_pty.Win.Path.{Wide}
use ex_pty.Win.PathUtil.{PathUtil}
use ex_pty.Win.Conpty.State.{Event, Command, Api, Baton, State, get_pty_baton, modify}
use ex_pty.Win.Conpty.Step.{
  Outcome, returned, Do, next, ◌>>=◌, ◌>>◌, give, emit, ask, or_return, unless, outcome,
}

pub record ConnectArgs : Type 0 where
  pub pty_id : ℤ
  pub cmdline : Bytes
  pub cwd : Bytes
  pub env_strings : List Bytes

-- The condition holds, fails, or spends the fuel of its loop.
pub data Read : Type 0 where
  accepted : ConnectArgs → Read
  refused : Read
  no_fuel : Read

module _ (e : Enif) where
  unfoldable pub read_args : ℕ → (ℕ → e.Term) → Read
  read_args fuel argv = elim (get_int e (argv 0)) [
    | none ↦ refused
    | some pty_id ↦ elim (text e (argv 1)) [
      | none ↦ refused
      | some cmdline ↦ elim (text e (argv 2)) [
        | none ↦ refused
        | some cwd ↦ elim (get_env e fuel (argv 3) []) [
          | none ↦ no_fuel
          | some (false, env) ↦ refused
          | some (true, env) ↦
              accepted (record { pty_id = pty_id; cmdline = cmdline; cwd = cwd; env_strings = env })
        ]
      ]
    ]
  ]

-- The strings, each with a NUL behind it.
unfoldable pub env_values : List Wide → Wide
env_values [] = []
env_values (value ∷ values) = value ++ (0 ∷ env_values values)

-- The text of the block.
unfoldable pub env_text : List Wide → Wide
unfolding env_values
env_text [] = []
env_text (value ∷ values) = env_values (value ∷ values) ++ 0 ∷ []

-- The characters of a string, one by one.
unfoldable pub vector_from_string : Wide → Wide
vector_from_string [] = []
vector_from_string (c ∷ str) = c ∷ vector_from_string str

-- The argument, and `none` for a null pointer where the vector is empty.
unfoldable pub env_arg : Wide → Option Wide
env_arg [] = none
env_arg (c ∷ vector) = some (c ∷ vector)

unfoldable pub env_block : List Wide → Option Wide
unfolding env_text vector_from_string env_arg
env_block values = env_arg (vector_from_string (env_text values))

abbrev pub widen : PathUtil → List Bytes → List Wide
widen u [] = []
widen u (s ∷ ss) = u.to_wstring s ∷ widen u ss

module _ (e : Enif) (u : PathUtil) (a : Api) where
  -- What `CreateProcessW` is given. The copies end at the first NUL.
  unfoldable pub command : ConnectArgs → Command
  unfolding env_block
  command args = record {
    line = c_str (u.to_wstring args.cmdline);
    env = env_block (widen u args.env_strings);
    cwd = c_str (u.to_wstring args.cwd);
  }

  -- PROC_THREAD_ATTRIBUTE_PSEUDOCONSOLE
  abbrev pub pseudoconsole_attribute : ℕ
  pseudoconsole_attribute = a.attribute_value 22 false true false

  -- The mutex, the two threads, and the two ends of the console.
  unfoldable pub connect_pipes : ℤ → Baton → Do e.Term (Unit {0})
  connect_pipes id b = do
    emit (Event.mutex_init id)
    emit (Event.start_writer id)
    emit (Event.connect_pipe b.in_handle)
    emit (Event.start_reader id)
    emit (Event.connect_pipe b.out_handle)

  -- The attribute list and the process. A failure to initialise the list is not returned.
  unfoldable pub start_process : Baton → Command → Do e.Term (ℕ × ℕ)
  start_process b cmd = do
    initialised ← ask a.init_attributes
    emit (Event.init_attributes initialised)
    updated ← ask a.update_attributes
    emit (Event.update_attributes pseudoconsole_attribute b.hpc updated)
    unless updated (error e (codes "UpdateProcThreadAttribute failed"))
    created ← ask (λ h. a.create_process h cmd)
    emit (Event.create_process cmd created)
    or_return created (error e (codes "Cannot create process"))

  abbrev assign_shell : ℤ → ℕ → Do e.Term (Unit {0})
  assign_shell id shell s =
      next tt (record s { handles = modify (λ b. record b { shell = some shell }) id s.handles })

  -- uv_mutex_init leaves the mutex unlocked.
  abbrev init_mutex : ℤ → Do e.Term (Unit {0})
  init_mutex id s =
      next tt (record s { handles = modify (λ b. record b { locked = false }) id s.handles })

  abbrev find_handle : ℤ → Do e.Term Baton
  find_handle id s = or_return (get_pty_baton id s.handles) (error e (codes "Invalid pty handle")) s

  unfoldable pub connect_with : ConnectArgs → Do e.Term e.Term
  connect_with args = do
    handle ← find_handle args.pty_id
    init_mutex args.pty_id
    connect_pipes args.pty_id handle
    (shell, pid) ← start_process handle (command args)
    assign_shell args.pty_id shell
    emit (Event.async_init args.pty_id)
    emit (Event.register_wait shell)
    give (e.make_tuple2 (atom e (codes "ok")) (e.make_int64 (pos pid)))

  -- `none` means that the fuel of the condition ran out.
  unfoldable pub expty_pty_connect : ℕ → (ℕ → e.Term) → State → Option (Outcome e.Term)
  expty_pty_connect fuel argv s = elim (read_args e fuel argv) [
    | no_fuel ↦ none
    | refused ↦ some (returned e.make_badarg s)
    | accepted args ↦ some (outcome (connect_with args s))
  ]
