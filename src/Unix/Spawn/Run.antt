-- ===== src/Unix/Spawn/Run.antt =====
-- `expty_spawn` of c_src/unix/pty.cpp behind its condition: every call in order, each `goto done` as a
-- jump, and the cleanup at the label. Also `pty_nonblock` and `throw_for_errno`, which it calls.
use ex_pty.Prelude.{
  ℕ, suc, false, not, ◌&&◌, Option, none, some, List, ◌∷◌, ◌++◌, map, Bytes, ℤ, pos, negsuc, codes,
  c_str, ◌==◌, ◌==ℤ◌, if◌then◌else◌,
}
use ex_pty.Enif.{Enif}
use ex_pty.Nif.Make.{error, make_string}
use ex_pty.Unix.Termios.{Platform, winsize, spawn_termios}
use ex_pty.Unix.Sys.{
  Event, Image, Thread, Kernel, Sys, Outcome, returned, undefined, running, update, insert, log,
}
use ex_pty.Unix.Spawn.Jump.{next, goto_done, Do, ◌>>=◌, ◌>>◌, give, emit, ask, or_done, at_done}
use ex_pty.Unix.Spawn.Args.{value, refused, no_fuel, SpawnArgs, read_args}

-- `std::to_string` and `std::stoi`, of the C++ library.
pub record Decimal : Type 0 where
  pub to_string : ℤ → Bytes
  pub stoi : Bytes → Option ℤ

abbrev pub sigkill : ℤ
sigkill = pos 9

-- `fcntl(fd, F_GETFL)` and `fcntl(fd, F_SETFL, flags | O_NONBLOCK)`
unfoldable pub pty_nonblock : {T : Type 0} → Kernel → ℕ → Do T ℤ
pty_nonblock k fd = do
  flags ← ask (λ h. k.get_flags h fd)
  emit (Event.get_flags fd flags)
  if flags ==ℤ negsuc 0
      then give (negsuc 0)
      else (do ret ← ask (λ h. k.set_nonblock h fd); emit (Event.set_nonblock fd ret); give ret)

module _ (d : Decimal) (p : Platform) where
  -- The strings behind the helper's `argv`: `EXTRA_ARGS` of them, then the arguments.
  unfoldable pub helper_argv : SpawnArgs → ℤ → ℤ → List Bytes
  helper_argv a uid gid =
      c_str a.helper_path
      ∷ c_str a.cwd
      ∷ c_str (d.to_string uid)
      ∷ c_str (d.to_string gid)
      ∷ codes (if a.close_fds && not p.has_cloexec_default then "1" else "0")
      ∷ c_str a.file
      ∷ map c_str a.args

module _ (e : Enif) where
  unfoldable pub throw_for_errno : Kernel → Bytes → ℤ → e.Term
  throw_for_errno k message errno = error e (message ++ k.strerror errno)

module _ (e : Enif) (p : Platform) (k : Kernel) where
  -- `openpty`, then the pipe on which the helper reports.
  unfoldable pub open_terminal : SpawnArgs → Do e.Term (ℕ × ℕ × ℕ × ℕ)
  open_terminal a = do
    emit Event.block_signals
    let term =
        k.cfsetospeed a.obaudrate (k.cfsetispeed a.ibaudrate (spawn_termios p a.is_utf8 a.echo))
    opened ← ask k.openpty
    emit (Event.openpty term (winsize a.cols a.rows) opened)
    (master, slave) ← or_done opened (error e (codes "openpty() failed."))
    piped ← ask k.pipe
    emit (Event.pipe piped)
    (reading, writing) ← or_done piped (error e (codes "pipe() failed."))
    give (master, slave, reading, writing)

  -- The file actions and attributes; 3 is `COMM_PIPE_FD`.
  unfoldable pub set_actions : SpawnArgs → ℕ → ℕ → Do e.Term (Unit {0})
  set_actions a slave writing = do
    emit Event.file_actions_init
    emit (Event.add_dup2 slave 0)
    emit (Event.add_dup2 slave 1)
    emit (Event.add_dup2 slave 2)
    emit (Event.add_dup2 writing 3)
    emit (Event.add_close writing)
    emit Event.spawnattr_init
    emit (Event.set_flags (a.close_fds && p.has_cloexec_default))

  -- The two allocations, and `posix_spawn`: the resource, the Erlang pid and the child.
  unfoldable pub start_child : SpawnArgs → List Bytes → List Bytes → ℕ → Do e.Term (ℕ × ℕ × ℕ)
  unfolding throw_for_errno
  start_child a argv envp writing = do
    socket ←
        or_done (← ask k.alloc_resource)
          (error e (codes "Could not allocate memory for pipesocket resource."))
    process ← or_done (← ask k.alloc_pid) (error e (codes "cannot allocate memory for ErlNifPid."))
    let image : Image = record {
      argv = argv;
      envp = envp;
      cloexec_default = a.close_fds && p.has_cloexec_default;
    }
    (failed, pid) ← ask (λ h. k.posix_spawn h image)
    emit (Event.posix_spawn image failed pid)
    emit (Event.close writing)
    emit Event.restore_signals
    if failed == 0
        then give (socket, process, pid)
        else goto_done (throw_for_errno e k (codes "posix_spawn failed: ") (pos failed))

  -- The term for a report of the helper; the codes are those of common.h.
  unfoldable pub report_term : ℤ → ℤ → e.Term
  unfolding throw_for_errno
  report_term code errno =
      if code ==ℤ pos 1
      then throw_for_errno e k (codes "exec() failed: ") errno
      else if code ==ℤ pos 2
      then throw_for_errno e k (codes "chdir() failed: ") errno
      else if code ==ℤ pos 3
      then throw_for_errno e k (codes "setuid() failed: ") errno
      else if code ==ℤ pos 4
      then throw_for_errno e k (codes "setgid() failed: ") errno
      else error e (codes "error")

  -- A whole report ends the call; the end of the pipe means that the helper has become the program.
  unfoldable pub check_report : ℕ → Do e.Term (Unit {0})
  unfolding report_term
  check_report reading = do
    (bytes_read, code, errno) ← ask (λ h. k.read_report h reading)
    emit (Event.read_report reading bytes_read)
    emit (Event.close reading)
    if bytes_read ==ℤ pos 8 then goto_done (report_term code errno) else give tt

  -- `enif_make_resource` and the fields that are assigned with it.
  abbrev assign_socket : ℕ → ℕ → ℕ → Do e.Term (Unit {0})
  assign_socket master socket process s = next tt (record s {
    sockets = update s.sockets socket (record { fd = master; baton = none; process = process });
  })

  -- `new pty_baton()` and the assignment of it to the resource.
  abbrev assign_baton : ℕ → ℕ → ℕ → ℕ → Do e.Term ℕ
  assign_baton master socket process pid s = next s.next_baton (record s {
    sockets =
        update s.sockets socket
          (record { fd = master; baton = some s.next_baton; process = process });
    batons = update s.batons s.next_baton (
        some (record {
          process = some process;
          fd_closed = false;
          exit_code = pos 0;
          signal_code = pos 0;
          pid = pid;
        }));
    next_baton = suc s.next_baton;
  })

  -- `processes[pid] = pipesocket`
  abbrev register : ℕ → ℕ → Do e.Term (Unit {0})
  register pid socket s = next tt (record s { processes = insert pid socket s.processes })

  -- A child that cannot be handed over is killed.
  unfoldable pub abandon : {A : Type 0} → ℕ → Bytes → Do e.Term A
  abandon pid message = do emit (Event.kill pid sigkill); goto_done (error e message)

  -- The nonblocking master, the baton, the two threads and the entry in `processes`.
  unfoldable pub start_threads : ℕ → ℕ → ℕ → ℕ → Do e.Term (Unit {0})
  unfolding pty_nonblock abandon
  start_threads master socket process pid = do
    ret ← pty_nonblock k master
    if ret ==ℤ negsuc 0 then abandon pid (codes "Could not set master fd to nonblocking.") else (do
      baton ← assign_baton master socket process pid
      emit (Event.mutex_init socket)
      emit (Event.async_init Thread.reads socket)
      emit (Event.async_init Thread.waits baton)
      emit (Event.start Thread.waits baton)
      emit (Event.start Thread.reads socket)
      register pid socket)

  -- The reply, with all that has to be in place before it is given.
  unfoldable pub hand_over : ℕ → ℕ → ℕ → ℕ → Do e.Term e.Term
  unfolding start_threads
  hand_over master socket process pid = do
    name ← ask (λ h. k.ptsname h master)
    elim (make_string e name) [
      | none ↦ abandon pid (codes "Could not allocate memory for ptsname.")
      | some tty ↦ (do
        assign_socket master socket process
        start_threads master socket process pid
        give (e.make_tuple3 (e.make_resource socket) (e.make_int (pos pid)) tty))
    ]

  -- From the terminal and the pipe to a child that has become the program: the master, the resource,
  -- the Erlang pid and the child.
  unfoldable pub launch :
      SpawnArgs → List Bytes → List Bytes → ℕ × ℕ × ℕ × ℕ → Do e.Term (ℕ × ℕ × ℕ × ℕ)
  unfolding set_actions start_child check_report
  launch a argv envp (master, slave, reading, writing) = do
    set_actions a slave writing
    (socket, process, pid) ← start_child a argv envp writing
    check_report reading
    give (master, socket, process, pid)

  unfoldable pub spawn_body : SpawnArgs → List Bytes → List Bytes → ℕ × ℕ × ℕ × ℕ → Do e.Term e.Term
  spawn_body a argv envp opened = do
    (master, socket, process, pid) ← launch a argv envp opened
    hand_over master socket process pid

-- The label `done`: the destructors of the file actions and the attributes, and the strings freed.
unfoldable pub cleanup : List Bytes → List Bytes → Sys → Sys
unfolding log
cleanup argv envp s =
    log (Event.free_strings envp) (
      log (Event.free_strings argv)
        (log Event.spawnattr_destroy (log Event.file_actions_destroy s)))

-- -2 stands for the user or group of the calling process.
unfoldable pub resolve_id : ℤ → ℤ → ℤ
resolve_id id own = if id ==ℤ negsuc 1 then own else id

module _ (e : Enif) (d : Decimal) (p : Platform) (k : Kernel) where
  -- The block under the condition. Where `argv`, the terminal or the pipe cannot be had, it jumps to the
  -- label before the file actions and the attributes are initialised. To destroy them there is undefined.
  unfoldable pub spawn_with : SpawnArgs → Sys → Outcome e.Term
  unfolding open_terminal
  spawn_with a s =
      let envp = map c_str a.envs in
      if not (k.new_envs s.trace)
      then returned (error e (codes "Could not allocate memory for envs.")) s
      else if not (k.new_argv s.trace)
      then undefined
      else (let argv =
            helper_argv d p a (resolve_id a.uid (k.getuid s.trace))
              (resolve_id a.gid (k.getgid s.trace)) in
          elim (open_terminal e p k a s) [
            | goto_done t s' ↦ undefined
            | next opened s' ↦
                let (t, s'') = at_done (spawn_body e p k a argv envp opened s') in
                returned t (cleanup argv envp s'')
          ])

  unfoldable pub expty_spawn : ℕ → (ℕ → e.Term) → Sys → Outcome e.Term
  expty_spawn fuel argv s = elim (read_args e fuel argv) [
    | value a ↦ spawn_with a s
    | refused ↦ returned (error e (codes "error")) s
    | no_fuel ↦ running
  ]
