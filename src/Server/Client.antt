-- ===== src/Server/Client.antt =====
-- The functions of lib/expty.ex that its users call, but for `spawn`: what they ask of a server.
use ex_pty.Prelude.{ℕ, Bool, true, false, none, some, Bytes, is_positive, ◌&&◌, ◌==◌, if◌then◌else◌}
use ex_pty.Server.Terms.{Atom, Term, is_boolean, is_integer, Exported}
use ex_pty.Server.Calls.{Callback, Request}
use ex_pty.Server.Options.{Host}

-- A request to the server of a term, the error that the callback module lacks its function, or no clause
-- of the function takes its arguments, which raises an exception in the caller.
pub data Asked : Type 0 where
  call : Term → Request → Asked
  not_exported : Atom → Exported → Asked
  no_clause : Asked

abbrev pub is_pid : Term → Bool
is_pid (Term.pid n) = true
is_pid t = false

abbrev when_pid : Term → Request → Asked
when_pid pty request = if is_pid pty then call pty request else no_clause

-- The data are a binary, as the type of `write` says.
unfoldable pub write : Term → Bytes → Asked
write pty text = call pty (Request.write text)

unfoldable pub kill : Term → Term → Asked
kill pty signal = elim (is_integer signal) [ none ↦ no_clause | some n ↦ call pty (Request.kill n) ]

abbrev set_callback : Host → Exported → ℕ → (Callback → Request) → Term → Term → Asked
set_callback host name arity update pty (Term.function n f) =
    if n == arity then call pty (update (Callback.func f)) else no_clause
set_callback host name arity update pty (Term.atom m) =
    if host.exported m name arity
    then call pty (update (Callback.module_ m))
    else not_exported m name
set_callback host name arity update pty t = no_clause

unfoldable pub on_data : Host → Term → Term → Asked
on_data host pty callback = set_callback host Exported.on_data 3 Request.update_on_data pty callback

unfoldable pub on_exit : Host → Term → Term → Asked
on_exit host pty callback = set_callback host Exported.on_exit 4 Request.update_on_exit pty callback

unfoldable pub resize : Term → Term → Term → Asked
resize pty cols rows = elim (is_integer cols) [
  | none ↦ no_clause
  | some c ↦ elim (is_integer rows) [
    | none ↦ no_clause
    | some r ↦
        if is_positive c && is_positive r then when_pid pty (Request.resize c r) else no_clause
  ]
]

unfoldable pub flow_control : Term → Asked
flow_control pty = when_pid pty Request.flow_control

unfoldable pub set_flow_control : Term → Term → Asked
set_flow_control pty enable = elim (is_boolean enable) [
  | none ↦ no_clause
  | some flag ↦ when_pid pty (Request.set_flow_control flag)
]

unfoldable pub pause : Term → Asked
pause pty = when_pid pty Request.pause

unfoldable pub resume : Term → Asked
resume pty = when_pid pty Request.resume

unfoldable pub set_echo : Term → Term → Asked
set_echo pty echo = elim (is_boolean echo) [
  | none ↦ no_clause
  | some flag ↦ when_pid pty (Request.set_echo flag)
]
