-- ===== src/Unix/Helper/Defs.antt =====
-- `main` and `bail` of c_src/unix/spawn-helper.cpp, with the numbers of c_src/unix/common.h.
use ex_pty.Prelude.{
  ℕ, zero, suc, ◌+◌, ◌-◌, Bool, true, false, Option, none, some, List, [], ◌∷◌, Bytes, ℤ, pos,
  negsuc, ◌==◌, ◌==ℤ◌, if◌then◌else◌,
}
use ex_pty.Unix.Spawn.Run.{Decimal}

abbrev pub comm_pipe_fd : ℕ
comm_pipe_fd = 3

abbrev pub comm_err_exec : ℤ
comm_err_exec = pos 1

abbrev pub comm_err_chdir : ℤ
comm_err_chdir = pos 2

abbrev pub comm_err_setuid : ℤ
comm_err_setuid = pos 3

abbrev pub comm_err_setgid : ℤ
comm_err_setgid = pos 4

-- The calls that the helper makes, with the error of those that can fail.
pub data Event : Type 0 where
  unblock_signals setsid : Event
  take_terminal : Bool → Event
  open_terminal : Event
  close_on_exec : ℕ → Event
  chdir : Bytes → Option ℤ → Event
  setuid setgid : ℤ → Option ℤ → Event
  close : ℕ → Event
  exec_failed : ℤ → Event
  report : ℤ → ℤ → Event

abbrev pub History : Type 0
History = List Event

-- The system under the helper: `none` stands for success, `some` for an `errno`.
pub record Host : Type 0 where
  pub has_tiocsctty : Bool
  pub take_terminal : History → Bool
  pub chdir : History → Bytes → Option ℤ
  pub setuid : History → ℤ → Option ℤ
  pub setgid : History → ℤ → Option ℤ
  pub nofile : History → ℕ
  pub execvp : History → Bytes → List Bytes → Option ℤ

-- How the helper ends: as another program, by `_exit`, by an exception of `std::stoi`, or by reading
-- an argument that is not there.
pub data End : Type 0 where
  became : Bytes → List Bytes → End
  exited : ℕ → End
  threw : End
  undefined : End

-- A statement goes on, or the process ends.
pub data Step {ℓ} (A : Type ℓ) : Type ℓ where
  next : A → History → Step A
  ends : End → History → Step A

abbrev pub Do {ℓ} : Type ℓ → Type ℓ
Do A = History → Step A

infixl 5 ◌>>=◌ ◌>>◌
abbrev pub ◌>>=◌ {ℓ κ} : {A : Type ℓ} {B : Type κ} → Do A → (A → Do B) → Do B
◌>>=◌ m f h = elim (m h) [ next a h' ↦ f a h' | ends x h' ↦ ends x h' ]

abbrev pub ◌>>◌ {ℓ} : {B : Type ℓ} → Do (Unit {0}) → Do B → Do B
m >> k = m >>= λ _. k

abbrev pub give {ℓ} : {A : Type ℓ} → A → Do A
give a h = next a h

abbrev pub emit : Event → Do (Unit {0})
emit ev h = next tt (ev ∷ h)

abbrev pub stop {ℓ} : {A : Type ℓ} → End → Do A
stop x h = ends x h

-- `bail`: the report, and `_exit(1)`.
unfoldable pub bail : ℤ → ℤ → Do (Unit {0})
bail type code = do emit (Event.report type code); stop (End.exited 1)

abbrev pub bail_on : ℤ → Option ℤ → Do (Unit {0})
bail_on type none h = next tt h
bail_on type (some errno) h = bail type errno h

-- argv[i], and `std::stoi` of it.
abbrev pub arg : List Bytes → ℕ → Do Bytes
arg [] i h = ends End.undefined h
arg (x ∷ xs) zero h = next x h
arg (x ∷ xs) (suc i) h = arg xs i h

abbrev pub or_throw : Option ℤ → Do ℤ
or_throw none h = ends End.threw h
or_throw (some n) h = next n h

-- &argv[n]
abbrev pub from : ℕ → List Bytes → List Bytes
from zero xs = xs
from (suc n) [] = []
from (suc n) (x ∷ xs) = from n xs

-- `for (fd = STDERR_FILENO + 1; fd < rlim_cur; fd++) if (fd != COMM_PIPE_FD) close(fd);`
unfoldable pub close_fds : ℕ → ℕ → History → History
close_fds zero fd h = h
close_fds (suc rounds) fd h =
    close_fds rounds (fd + 1) (if fd == comm_pipe_fd then h else Event.close fd ∷ h)

module _ (o : Host) where
  -- A session of its own, and the controlling terminal.
  unfoldable pub take_session : Do (Unit {0})
  take_session = do
    emit Event.unblock_signals
    emit Event.setsid
    if o.has_tiocsctty
        then (λ h.
            if o.take_terminal h
            then next tt (Event.take_terminal true ∷ h)
            else ends (End.exited 1) (Event.take_terminal false ∷ h))
        else emit Event.open_terminal

  -- `strlen(cwd) && chdir(cwd) == -1`
  unfoldable pub change_directory : Bytes → Do (Unit {0})
  unfolding bail
  change_directory [] h = next tt h
  change_directory (b ∷ cwd) h =
      let failed = o.chdir h (b ∷ cwd) in
      bail_on comm_err_chdir failed (Event.chdir (b ∷ cwd) failed ∷ h)

  -- -1 stands for no change.
  unfoldable pub change_user : ℤ → Do (Unit {0})
  unfolding bail
  change_user uid h =
      let failed = o.setuid h uid in
      if uid ==ℤ negsuc 0
      then next tt h
      else bail_on comm_err_setuid failed (Event.setuid uid failed ∷ h)

  unfoldable pub change_group : ℤ → Do (Unit {0})
  unfolding bail
  change_group gid h =
      let failed = o.setgid h gid in
      if gid ==ℤ negsuc 0
      then next tt h
      else bail_on comm_err_setgid failed (Event.setgid gid failed ∷ h)

  -- `execvp` comes back only if it fails.
  unfoldable pub become : Bytes → List Bytes → Do (Unit {0})
  unfolding bail
  become file argv h = elim (o.execvp h file argv) [
    | none ↦ ends (End.became file argv) h
    | some errno ↦ bail comm_err_exec errno (Event.exec_failed errno ∷ h)
  ]

module _ (d : Decimal) (o : Host) where
  unfoldable pub main : List Bytes → Do (Unit {0})
  main argv = do
    take_session o
    cwd ← arg argv 1
    uid ← or_throw (d.stoi (← arg argv 2))
    gid ← or_throw (d.stoi (← arg argv 3))
    closing ← or_throw (d.stoi (← arg argv 4))
    file ← arg argv 5
    emit (Event.close_on_exec comm_pipe_fd)
    change_directory o cwd
    change_user o uid
    change_group o gid
    if closing ==ℤ pos 0 then give tt else (λ h. next tt (close_fds (o.nofile h - 3) 3 h))
    become o file (from 5 argv)
