-- ===== src/Server/Served.antt =====
-- The server of lib/expty.ex from `spawn` on: what it starts with and what it serves.
use ex_pty.Prelude.{ℕ, ℤ, ◌≡◌, refl, Bool, true, false, Option, none, some, List, map, codes, All}
use ex_pty.Server.CommandLine.{Text}
use ex_pty.Server.Terms.{Term}
use ex_pty.Server.Calls.{Os, Event, Callbacks, State, Input}
use ex_pty.Server.FlowControl.{
  IsOfUnix, written, heard, unheld, listened, told, awaited, run-written,
}
use ex_pty.Server.Options.{Keywords, Host}
use ex_pty.Server.Init.{Result, init}
use ex_pty.Server.Spawning.{
  UnixPack, Pack, NifReply, gives, error, other, raises, Nif, unix_state, unix_args, spawn_unix,
  do_spawn,
}
use ex_pty.Server.Merged.{
  wanted_flow, wanted_pause, wanted_resume, fault, IsInitialised, init-IsInitialised,
}
use ex_pty.Server.Serving.{incoming, serve-run}
use ex_pty.Server.Session.{Server, running, ended, serve, Spawn, spawn_with, spawn}

abbrev pub is_given : {A : Type 0} → NifReply A → Bool
is_given (gives a) = true
is_given _ = false

-- What `spawn` leaves, and where the requests and messages behind it lead.
abbrev pub IsServed :
    Host
    → Nif
    → Callbacks
    → Text
    → Keywords
    → Result Pack
    → List Input
    → Spawn × Option Server
    → Type 0
IsServed host nif returns home opts start inputs (Spawn.not_started r, none) =
    (start ≡ Result.raised r) × (fault host home opts ≡ some r)
IsServed host nif returns home opts start inputs (Spawn.ok, some (running s)) =
    (o : UnixPack) × (pipesocket : ℕ) × (pid : ℤ) × (pty : Text) × (start ≡ Result.ok (Pack.unix o))
    × (nif.spawn_unix (unix_args o) ≡ gives (pipesocket, pid, pty))
    × (s ≡ unix_state o pipesocket)
    × (wanted_flow host home opts ≡ some s.handle_flow_control)
    × (wanted_pause host home opts ≡ some s.flow_control_pause)
    × (wanted_resume host home opts ≡ some s.flow_control_resume)
    × (s' : State) × (serve nif returns (map incoming inputs) (running s) ≡ running s')
    × (written s'.trace ≡ unheld s.handle_flow_control inputs)
    × (heard s'.trace ≡ listened s.on_data inputs)
    × (told s'.trace ≡ awaited s.on_exit inputs)
IsServed host nif returns home opts start inputs (Spawn.exits, some ended) =
    (o : UnixPack) × (start ≡ Result.ok (Pack.unix o))
    × (fault host home opts ≡ none)
    × (is_given (nif.spawn_unix (unix_args o)) ≡ false)
IsServed host nif returns home opts start inputs result = ⊥

module _ (host : Host) (nif : Nif) (returns : Callbacks) (sound : (ev : Event) → returns ev ≡ true)
    (home : Text) (opts : Keywords) (start : Result Pack) (inputs : List Input)
    (known : All IsOfUnix inputs) (o : UnixPack) (q : start ≡ Result.ok (Pack.unix o))
    (i : IsInitialised host home opts (Result.ok (Pack.unix o))) where
  no_fault : fault host home opts ≡ none
  no_fault = let (c, f, p, r, v, cols, rows) = i in rw (c, f, p, r) refl

  given-IsServed :
      (r : NifReply (ℕ × ℤ × Text))
      → nif.spawn_unix (unix_args o) ≡ r
      → IsServed host nif returns home opts start inputs (spawn_with nif (Result.ok (Pack.unix o)))
  unfolding spawn_with do_spawn spawn_unix
  given-IsServed (gives (pipesocket, pid, pty)) e =
      let s = unix_state o pipesocket in
      let (s', r, w, h, t) = run-written returns inputs s sound known refl in
      let (cwd, flow, pause, resume, env, cols, rows) = i in
      rw (e, spawn_unix)
        (
          o,
          pipesocket,
          pid,
          pty,
          q,
          e,
          refl,
          flow,
          pause,
          resume,
          s',
          serve-run nif returns inputs s s' r,
          w,
          h,
          t,
        )
  given-IsServed (error reason) e = rw (e, spawn_unix) (o, q, no_fault, rw e refl)
  given-IsServed (other t) e = rw (e, spawn_unix) (o, q, no_fault, rw e refl)
  given-IsServed raises e = rw (e, spawn_unix) (o, q, no_fault, rw e refl)

-- On Unix, with a home directory and with callbacks that raise no exception, `spawn` returns the error of
-- the first exception of the options, or ends with a server for which the NIF has opened no terminal, or
-- leaves a server with the flow control of the options. That one goes through any requests and messages
-- that the NIF of Unix sends without an end, gives the NIF the texts of the writes that
-- come while flow control is off, and its callbacks the data and the exits that come while there is one
-- for them, each to the callback of its time, in order and nothing else.
pub spawn-IsServed :
    (host : Host) (nif : Nif) (returns : Callbacks) (home : Text) (file args : Term)
    (opts : Keywords) (inputs : List Input)
    → ((ev : Event) → returns ev ≡ true)
    → All IsOfUnix inputs
    → host.os ≡ Os.unix
    → host.expand (Term.binary (codes "~")) ≡ some home
    → IsServed host nif returns home opts
        (init host file args opts)
        inputs
        (spawn host nif file args opts)
unfolding spawn spawn_with
spawn-IsServed host nif returns home file args opts inputs sound known u h =
    go (init host file args opts) refl (init-IsInitialised host home file args opts u h)
  where
    go :
        (r : Result Pack)
        → init host file args opts ≡ r
        → IsInitialised host home opts r
        → IsServed host nif returns home opts (init host file args opts) inputs (spawn_with nif r)
    go (Result.raised r) q i = (q, i)
    go (Result.ok (Pack.unix o)) q i =
        given-IsServed host nif returns sound home opts _ inputs known o q i _ refl
    go (Result.ok (Pack.win32 o)) q i = absurd i
