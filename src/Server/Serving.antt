-- ===== src/Server/Serving.antt =====
-- The server of lib/expty.ex behind its spawning: what ends it.
use ex_pty.Prelude.{
  not, Option, Option-cases, ◌≡◌, refl, ◌↔◌, ◌⊎◌, inl, inr, Bool, true, false, ◌||◌, some, List, [],
  ◌∷◌, map, arith,
}
use ex_pty.Server.Calls.{
  Os, Callback, Callbacks, Event, State, Request, Message, Reply, Answer, reply, crash, Input,
  handle_call, handle_info, handle, run, write_unix,
}
use ex_pty.Server.Spawning.{Nif}
use ex_pty.Server.Session.{Server, waiting, running, ended, Incoming, take, serve}

abbrev pub incoming : Input → Incoming
incoming (Input.call request) = Incoming.call request
incoming (Input.info message) = Incoming.info message

-- What ends a server of the system and with the callbacks: a second `:do_spawn`; to set the echo on
-- Windows; data or an exit of which the callback raises an exception; an exit without a signal.
abbrev pub is_fatal : Callbacks → Os → (on_data on_exit : Option Callback) → Incoming → Bool
is_fatal returns os on_data on_exit Incoming.do_spawn_ = true
is_fatal returns Os.win32 on_data on_exit (Incoming.call (Request.set_echo echo)) = true
is_fatal returns os (some callback) on_exit (Incoming.info (Message.data_ text)) =
    not (returns (Event.on_data callback text))
is_fatal returns os on_data (some callback) (Incoming.info (Message.exit code signal)) =
    not (returns (Event.on_exit callback code signal))
is_fatal returns os on_data on_exit (Incoming.info (Message.exit_code code)) = true
is_fatal returns os on_data on_exit incoming = false

-- The callbacks behind a request.
abbrev pub data_after : Incoming → Option Callback → Option Callback
data_after (Incoming.call (Request.update_on_data callback)) on_data = some callback
data_after incoming on_data = on_data

abbrev pub exit_after : Incoming → Option Callback → Option Callback
exit_after (Incoming.call (Request.update_on_exit callback)) on_exit = some callback
exit_after incoming on_exit = on_exit

abbrev pub has_fatal : Callbacks → Os → (on_data on_exit : Option Callback) → List Incoming → Bool
has_fatal returns os on_data on_exit [] = false
has_fatal returns os on_data on_exit (i ∷ rest) =
    is_fatal returns os on_data on_exit i
    || has_fatal returns os (data_after i on_data) (exit_after i on_exit) rest

-- The server has ended, or it runs on, on the same system and with the callbacks behind the request.
abbrev IsTaken : Callbacks → Incoming → State → Server → Type 0
IsTaken returns i s (waiting p) = ⊥
IsTaken returns i s ended = is_fatal returns s.os_type s.on_data s.on_exit i ≡ true
IsTaken returns i s (running s') =
    (is_fatal returns s.os_type s.on_data s.on_exit i ≡ false)
    × (s'.os_type ≡ s.os_type)
    × (s'.on_data ≡ data_after i s.on_data)
    × (s'.on_exit ≡ exit_after i s.on_exit)

module _ (nif : Nif) (returns : Callbacks) where
  serve-ended : (rest : List Incoming) → serve nif returns rest ended ≡ ended
  unfolding serve take
  serve-ended [] = refl
  serve-ended (Incoming.do_spawn_ ∷ rest) = serve-ended rest
  serve-ended (Incoming.call request ∷ rest) = serve-ended rest
  serve-ended (Incoming.info message ∷ rest) = serve-ended rest

  request-IsTaken :
      (request : Request) (s : State)
      → IsTaken returns
          (Incoming.call request)
          s
          (take nif returns (Incoming.call request) (running s)).1
  unfolding take handle_call write_unix
  request-IsTaken (Request.write text) s = ground arith
  request-IsTaken (Request.kill signal) s = ground arith
  request-IsTaken (Request.update_on_data callback) s = ground arith
  request-IsTaken (Request.update_on_exit callback) s = ground arith
  request-IsTaken (Request.resize cols rows) s = ground arith
  request-IsTaken Request.flow_control s = ground arith
  request-IsTaken (Request.set_flow_control enable) s = ground arith
  request-IsTaken Request.pause s = ground arith
  request-IsTaken Request.resume s = ground arith
  request-IsTaken (Request.set_echo echo) s = ground arith

  message-IsTaken :
      (message : Message) (s : State)
      → IsTaken returns
          (Incoming.info message)
          s
          (take nif returns (Incoming.info message) (running s)).1
  unfolding take handle_info
  message-IsTaken (Message.data_ text) s = ground arith
  message-IsTaken (Message.exit code signal) s = ground arith
  message-IsTaken (Message.exit_code code) s = ground arith

  take-IsTaken : (i : Incoming) (s : State) → IsTaken returns i s (take nif returns i (running s)).1
  unfolding take
  take-IsTaken Incoming.do_spawn_ s = refl
  take-IsTaken (Incoming.info message) s = message-IsTaken message s
  take-IsTaken (Incoming.call request) s = request-IsTaken request s

  -- A server that runs ends exactly if one of the requests and messages is fatal under the callbacks of its
  -- time: a second `:do_spawn`, to set the echo on Windows, data or an exit of which the callback raises
  -- an exception, or an exit without a signal, as the NIF of Windows sends it. It stays ended.
  pub serve-ended_iff :
      (rest : List Incoming) (s : State)
      → (serve nif returns rest (running s) ≡ ended)
        ↔ (has_fatal returns s.os_type s.on_data s.on_exit rest ≡ true)
  unfolding serve
  serve-ended_iff [] s = ground arith
  serve-ended_iff (i ∷ rest) s =
      go (take nif returns i (running s)).1 refl (take-IsTaken i s) (serve-ended_iff rest)
    where
      go :
          (server : Server)
          → (take nif returns i (running s)).1 ≡ server
          → IsTaken returns i s server
          → ((s' : State)
              → (serve nif returns rest (running s') ≡ ended)
                ↔ (has_fatal returns s'.os_type s'.on_data s'.on_exit rest ≡ true))
          → (serve nif returns (i ∷ rest) (running s) ≡ ended)
            ↔ (has_fatal returns s.os_type s.on_data s.on_exit (i ∷ rest) ≡ true)
      go (waiting p) e taken behind = absurd taken
      go ended e taken behind =
          ((λ _. rw (taken, has_fatal) refl), (λ _. rw (e, serve) (serve-ended rest)))
      go (running s') e taken behind =
          let same : has_fatal returns s'.os_type s'.on_data s'.on_exit rest
              ≡ has_fatal returns s.os_type (data_after i s.on_data) (exit_after i s.on_exit) rest =
            rw (taken.1, taken.2, taken.3) refl in
          rw (e, serve, taken.0, has_fatal, ← same) (behind s')

Answer-cases : (a : Answer) → (a ≡ crash) ⊎ ((r : Reply) × (s : State) × (a ≡ reply r s))
Answer-cases crash = inl refl
Answer-cases (reply r s) = inr (r, s, refl)

pub serve-run :
    (nif : Nif) (returns : Callbacks) (inputs : List Input) (s s' : State)
    → run returns inputs s ≡ some s'
    → serve nif returns (map incoming inputs) (running s) ≡ running s'
unfolding run serve handle take
serve-run nif returns [] s s' h = ground arith
serve-run nif returns (Input.info message ∷ inputs) s s' h =
    elim (Option-cases (handle_info returns message s)) [
      | inl ends ↦ absurd (ground (arith, ends))
      | inr (s1, goes) ↦
          rw (goes, serve, take) (serve-run nif returns inputs s1 s' (ground (arith, goes)))
    ]
serve-run nif returns (Input.call request ∷ inputs) s s' h =
    elim (Answer-cases (handle_call request s)) [
      | inl ends ↦ absurd (ground (arith, ends))
      | inr (r, s1, goes) ↦
          rw (goes, serve, take) (serve-run nif returns inputs s1 s' (ground (arith, goes)))
    ]
