-- ===== src/Server/Session.antt =====
-- The server of lib/expty.ex from `init` to its end, and `spawn`, which starts one and asks it to spawn.
use ex_pty.Prelude.{ℤ, Option, none, some, List, [], ◌∷◌}
use ex_pty.Server.Terms.{Term}
use ex_pty.Server.Calls.{
  Callbacks, State, Request, Message, Reply, Answer, handle_call, handle_info,
}
use ex_pty.Server.Options.{Keywords, Host}
use ex_pty.Server.Init.{Reason, Result, init}
use ex_pty.Server.Spawning.{Pack, NifReply, Nif, Spawned, do_spawn}

-- A server waits with its options, runs, or has ended by an exception.
pub data Server : Type 0 where
  waiting : Pack → Server
  running : State → Server
  ended : Server

-- The request of `spawn`, those of the other functions, and the messages of the NIF.
pub data Incoming : Type 0 where
  do_spawn_ : Incoming
  call : Request → Incoming
  info : Message → Incoming

-- What the caller gets: `:ok`, what the NIF has replied instead, an answer of a server that runs, the exit
-- of a server that ends, or nothing for a message.
pub data Outcome : Type 0 where
  spawned_ok : Outcome
  not_spawned : NifReply ℤ → Outcome
  answered : Reply → Outcome
  exited : Outcome
  unanswered : Outcome

abbrev of_spawned : Spawned → Outcome × Server
of_spawned (Spawned.spawned inner_pid s) = (spawned_ok, running s)
of_spawned (Spawned.refused reply p) = (not_spawned reply, waiting p)
of_spawned Spawned.crash = (exited, ended)

abbrev of_answer : Answer → Outcome × Server
of_answer (Answer.reply r s) = (answered r, running s)
of_answer Answer.crash = (exited, ended)

-- The clauses for `:do_spawn` take the options, and all others take `%T{}`.
unfoldable pub take : Nif → Callbacks → Incoming → Server → Outcome × Server
take nif returns Incoming.do_spawn_ (waiting p) = of_spawned (do_spawn nif p)
take nif returns Incoming.do_spawn_ (running s) = (exited, ended)
take nif returns (Incoming.call request) (running s) = of_answer (handle_call request s)
take nif returns (Incoming.info message) (running s) = elim (handle_info returns message s) [
  | none ↦ (unanswered, ended)
  | some s' ↦ (unanswered, running s')
]
take nif returns (Incoming.info message) server = (unanswered, ended)
take nif returns incoming server = (exited, ended)

unfoldable pub serve : Nif → Callbacks → List Incoming → Server → Server
unfolding take
serve nif returns [] server = server
serve nif returns (incoming ∷ rest) server =
    serve nif returns rest (take nif returns incoming server).1

-- What `spawn` returns: `{:ok, pid}`, what `:do_spawn` has replied, or the exception of `init`; or it exits
-- itself, with a server that ends.
pub data Spawn : Type 0 where
  ok : Spawn
  error : NifReply ℤ → Spawn
  not_started : Reason → Spawn
  exits : Spawn

abbrev of_outcome : Outcome → Spawn
of_outcome (not_spawned reply) = error reply
of_outcome exited = exits
of_outcome _ = ok

-- `spawn` behind `init`, with the server that it leaves, if it has started one.
unfoldable pub spawn_with : Nif → Result Pack → Spawn × Option Server
spawn_with nif (Result.raised r) = (not_started r, none)
spawn_with nif (Result.ok pack) =
    let (outcome, server) = of_spawned (do_spawn nif pack) in (of_outcome outcome, some server)

unfoldable pub spawn : Host → Nif → Term → Term → Keywords → Spawn × Option Server
unfolding spawn_with
spawn host nif file args opts = spawn_with nif (init host file args opts)
