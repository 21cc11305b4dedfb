-- ===== src/Unix/Write/Defs.antt =====
-- `pty_pipesocket::write` and `expty_write` of c_src/unix/pty.cpp. `size_t` has 64 bits, and the
-- loop, which has no bound in the source, takes fuel.
use ex_pty.Prelude.{
  ℕ, zero, suc, ◌+◌, ◌-◌, ◌%◌, ◌^◌, Bool, true, false, ◌||◌, none, some, Bytes, pos, negsuc, codes,
  ltb, ◌==◌, if◌then◌else◌, length, take, drop,
}
use ex_pty.Enif.{Enif}
use ex_pty.Nif.Make.{atom, error}
use ex_pty.Unix.Sys.{Event, Kernel, Baton, Sys, Outcome, returned, undefined, running, log}
use ex_pty.Unix.Handlers.Defs.{baton_of, fd_of, no_resource}

abbrev pub size_max : ℕ
size_max = 2 ^ 64

abbrev pub buffer_size : ℕ
buffer_size = 1024

-- `fd_closed` as the writer reads it: it was set, or the reading thread has set it by now.
abbrev pub sees_closed : Kernel → Baton → Sys → Bool
sees_closed k b s = b.fd_closed || k.closed_by_reader s.trace

-- The locals of the loop.
pub record Progress : Type 0 where
  pub bytes_to_write : ℕ
  pub bytes_written : ℕ
  pub retry : ℕ

-- `nbytes`
abbrev pub chunk_size : Progress → ℕ
chunk_size w = if ltb w.bytes_to_write buffer_size then w.bytes_to_write else buffer_size

abbrev pub chunk : Bytes → Progress → Bytes
chunk text w = take (chunk_size w) (drop w.bytes_written text)

-- `bytes_written += n; bytes_to_write -= n;`
abbrev pub advance : Progress → ℕ → Progress
advance w n = record w {
  bytes_written = (w.bytes_written + n) % size_max;
  bytes_to_write = (w.bytes_to_write + size_max - n) % size_max;
}

-- `if (retry-- > 0) usleep(10);`
abbrev pub back_off : Progress → Sys → Progress × Sys
back_off w s = (
  record w { retry = (w.retry + size_max - 1) % size_max },
  if ltb 0 w.retry then log (Event.usleep 10) s else s,
)

module _ (k : Kernel) (socket : ℕ) (text : Bytes) where
  unfoldable pub write_loop : ℕ → Progress → Sys → Outcome ℕ
  unfolding log
  write_loop zero w s = running
  write_loop (suc fuel) w s = elim (baton_of s socket) [
    | none ↦ undefined
    | some b ↦ elim (sees_closed k b s) [
      | true ↦ returned w.bytes_written s
      | false ↦
          let fd = fd_of s socket in
          let r = k.write s.trace fd (chunk text w) in
          let s' = log (Event.write fd (chunk text w) r) s in
          elim r [
            | pos zero ↦ write_loop fuel (back_off w s').0 (back_off w s').1
            | pos (suc n) ↦ elim ((advance w (suc n)).bytes_written == length text) [
              | true ↦ returned (length text) s'
              | false ↦ write_loop fuel (advance w (suc n)) s'
            ]
            | negsuc n ↦ write_loop fuel (back_off w s').0 (back_off w s').1
          ]
    ]
  ]

  abbrev pub start : Progress
  start = record { bytes_to_write = length text; bytes_written = 0; retry = 3 }

  -- `uv_mutex_unlock`, and the return.
  unfoldable pub unlocked : Outcome ℕ → Outcome ℕ
  unfolding log
  unlocked (returned n s) = returned n (log (Event.mutex_unlock socket) s)
  unlocked undefined = undefined
  unlocked running = running

  unfoldable pub write : ℕ → Sys → Outcome ℕ
  unfolding log
  write fuel s = elim (baton_of s socket) [
    | none ↦ undefined
    | some b ↦ elim (sees_closed k b s) [
      | true ↦ returned 0 s
      | false ↦ unlocked (write_loop fuel start (log (Event.mutex_lock socket) s))
    ]
  ]

module _ (e : Enif) (k : Kernel) where
  -- The reply for a number of bytes written.
  unfoldable pub write_reply : Bytes → Outcome ℕ → Outcome e.Term
  write_reply bin (returned n s) =
      returned
        (if n == length bin
          then atom e (codes "ok")
          else e.make_tuple2 (atom e (codes "partial")) (e.make_int64 (pos n)))
        s
  write_reply bin undefined = undefined
  write_reply bin running = running

  unfoldable pub expty_write : ℕ → (ℕ → e.Term) → Sys → Outcome e.Term
  expty_write fuel argv s = elim (e.get_resource (argv 0)) [
    | none ↦ returned (no_resource e) s
    | some socket ↦ elim (e.inspect_binary (argv 1)) [
      | some bin ↦ write_reply bin (write k socket bin fuel s)
      | none ↦ elim (e.inspect_iolist_as_binary (argv 1)) [
        | some bin ↦ write_reply bin (write k socket bin fuel s)
        | none ↦
            returned
              (error e (codes "ExPTY.write/2 expects the second argument to be binary or iovec(s)"))
              s
      ]
    ]
  ]
