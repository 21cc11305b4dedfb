-- ===== src/Unix/Spawn/Args.antt =====
-- The condition at the head of `expty_spawn` (c_src/unix/pty.cpp): fourteen arguments, read in turn.
use ex_pty.Prelude.{
  ℕ, Bool, true, false, Option, none, some, List, [], Bytes, ℤ, is_positive, is_nonneg,
}
use ex_pty.Enif.{Enif}
use ex_pty.Nif.Scalars.{text, get_int, get_bool}
use ex_pty.Nif.Containers.{get_list, get_env}

-- A condition holds with what it has read, fails, or spends the fuel of a loop.
pub data Read {ℓ} (A : Type ℓ) : Type ℓ where
  value : A → Read A
  refused : Read A
  no_fuel : Read A

infixl 5 ◌>>=◌ ◌>>◌
abbrev pub ◌>>=◌ {ℓ κ} : {A : Type ℓ} {B : Type κ} → Read A → (A → Read B) → Read B
value a >>= f = f a
refused >>= f = refused
no_fuel >>= f = no_fuel

abbrev pub ◌>>◌ {ℓ} : {B : Type ℓ} → Read (Unit {0}) → Read B → Read B
m >> k = m >>= λ _. k

abbrev pub holds : Bool → Read (Unit {0})
holds true = value tt
holds false = refused

abbrev pub of_option {ℓ} : {A : Type ℓ} → Option A → Read A
of_option none = refused
of_option (some a) = value a

abbrev pub of_loop : Option (Bool × List Bytes) → Read (List Bytes)
of_loop none = no_fuel
of_loop (some (true, var)) = value var
of_loop (some (false, var)) = refused

pub record SpawnArgs : Type 0 where
  pub file : Bytes
  pub args : List Bytes
  pub envs : List Bytes
  pub cwd : Bytes
  pub cols : ℤ
  pub rows : ℤ
  pub ibaudrate : ℤ
  pub obaudrate : ℤ
  pub uid : ℤ
  pub gid : ℤ
  pub is_utf8 : Bool
  pub close_fds : Bool
  pub echo : Bool
  pub helper_path : Bytes

module _ (e : Enif) where
  -- An `int` that passes the test beside it.
  int_arg : (ℤ → Bool) → e.Term → Read ℤ
  int_arg test t = do n ← of_option (get_int e t); holds (test n); value n

  -- `fuel` bounds the loop over the map of the environment.
  unfoldable pub read_args : ℕ → (ℕ → e.Term) → Read SpawnArgs
  unfolding int_arg
  read_args fuel argv = do
    file ← of_option (text e (argv 0))
    args ← of_loop (get_list e (argv 1) [])
    envs ← of_loop (get_env e fuel (argv 2) [])
    cwd ← of_option (text e (argv 3))
    cols ← int_arg is_positive (argv 4)
    rows ← int_arg is_positive (argv 5)
    ibaudrate ← int_arg is_nonneg (argv 6)
    obaudrate ← int_arg is_nonneg (argv 7)
    uid ← of_option (get_int e (argv 8))
    gid ← of_option (get_int e (argv 9))
    is_utf8 ← of_option (get_bool e (argv 10))
    close_fds ← of_option (get_bool e (argv 11))
    echo ← of_option (get_bool e (argv 12))
    helper_path ← of_option (text e (argv 13))
    value (record {
      file = file;
      args = args;
      envs = envs;
      cwd = cwd;
      cols = cols;
      rows = rows;
      ibaudrate = ibaudrate;
      obaudrate = obaudrate;
      uid = uid;
      gid = gid;
      is_utf8 = is_utf8;
      close_fds = close_fds;
      echo = echo;
      helper_path = helper_path;
    })
