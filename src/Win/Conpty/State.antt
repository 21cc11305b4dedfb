-- ===== src/Win/Conpty/State.antt =====
-- The state that c_src/win/conpty.cc works on, and its calls of Windows, of libuv and of the allocators,
-- which are no part of the repository. Each call is an event with its reply; the reply is a function of
-- the events before it, so that a parameter `Api` stands for any behaviour.
use ex_pty.Prelude.{
  ℕ, ◌+◌, ◌-◌, ◌%◌, ◌^◌, Bool, Option, none, some, List, [], ◌∷◌, Bytes, ℤ, pos, negsuc, ltb, ◌==ℤ◌,
  if◌then◌else◌,
}
use ex_pty.Win.Path.{Wide}

-- COORD
pub record Coord : Type 0 where
  pub x : ℤ
  pub y : ℤ

-- What `CreateProcessW` is asked to start; `env` is `none` for a null pointer.
pub record Command : Type 0 where
  pub line : Wide
  pub env : Option Wide
  pub cwd : Wide

pub data Event : Type 0 where
  create_pipe : Wide → Bool → Option ℕ → Event
  load_library : Bool → Event
  find_function : Bool → Event
  create_console : Coord → ℕ → ℕ → ℕ → ℤ → Event
  restore_ctrl_c : Event
  mutex_init : ℤ → Event
  mutex_lock mutex_unlock : ℤ → Event
  start_writer start_reader : ℤ → Event
  connect_pipe : ℕ → Event
  init_attributes : Bool → Event
  update_attributes : ℕ → ℕ → Bool → Event
  create_process : Command → Option (ℕ × ℕ) → Event
  async_init : ℤ → Event
  register_wait : ℕ → Event
  write_file : ℕ → Bytes → Option ℕ → Event
  resize_console : ℕ → Coord → Event

-- The events so far, the newest first.
abbrev pub History : Type 0
History = List Event

-- `none` stands for a failing call, an invalid handle or a null pointer. An HRESULT is a failure if it
-- is negative.
pub record Api : Type 0 where
  pub path_is_relative : Wide → Bool
  -- `wstring_convert` to UTF-8.
  pub to_bytes : Wide → Bytes
  pub create_pipe : History → Wide → Option ℕ
  pub load_library : History → Bool
  pub find_function : History → Bool
  -- The result and the console.
  pub create_console : History → Coord → ℕ → ℤ × ℕ
  -- HRESULT_FROM_WIN32(GetLastError())
  pub last_error : History → ℤ
  pub alloc_pid : History → Option ℕ
  -- ProcThreadAttributeValue
  pub attribute_value : ℕ → Bool → Bool → Bool → ℕ
  pub init_attributes : History → Bool
  pub update_attributes : History → Bool
  -- The handle of the process, and its id.
  pub create_process : History → Command → Option (ℕ × ℕ)
  -- The number of bytes written.
  pub write_file : History → ℕ → Bytes → Option ℕ

-- `struct pty_baton`. `real_in` is `none` before the writing end is opened, and `locked` is the state of
-- the mutex.
pub record Baton : Type 0 where
  pub process : ℕ
  pub id : ℤ
  pub in_handle : ℕ
  pub out_handle : ℕ
  pub hpc : ℕ
  pub in_name : Wide
  pub out_name : Wide
  pub real_in : Option ℕ
  pub write_ready : Bool
  pub locked : Bool
  pub shell : Option ℕ

-- `ptyHandles`, of which nothing is ever taken out, and the bits of `ptyCounter`.
pub record State : Type 0 where
  pub trace : History
  pub handles : List Baton
  pub counter : ℕ

-- InterlockedIncrement on a LONG, and the number that its bits stand for.
unfoldable pub increment : ℕ → ℕ
increment n = (n + 1) % 2 ^ 32

abbrev pub signed32 : ℕ → ℤ
signed32 n = if ltb n (2 ^ 31) then pos n else negsuc (2 ^ 32 - n - 1)

-- The first handle of that id.
unfoldable pub get_pty_baton : ℤ → List Baton → Option Baton
get_pty_baton id [] = none
get_pty_baton id (b ∷ handles) = if b.id ==ℤ id then some b else get_pty_baton id handles

-- An assignment through the pointer that it gives.
unfoldable pub modify : (Baton → Baton) → ℤ → List Baton → List Baton
modify f id [] = []
modify f id (b ∷ handles) = if b.id ==ℤ id then f b ∷ handles else b ∷ modify f id handles
