-- ===== src/Win/Conpty/Handlers.antt =====
-- `pty_baton::write`, `expty_write`, `expty_resize` and `expty_stub` of c_src/win/conpty.cc.
use ex_pty.Prelude.{
  ℕ, ◌%◌, ◌^◌, Bool, true, false, ◌&&◌, Option, none, some, Bytes, codes, ℤ, pos, length, take,
  is_positive, ◌==◌, if◌then◌else◌,
}
use ex_pty.Enif.{Enif}
use ex_pty.Nif.Make.{atom, error}
use ex_pty.Nif.Scalars.{get_int}
use ex_pty.Win.Consoles.{short}
use ex_pty.Win.Conpty.State.{Event, Api, Baton, State, get_pty_baton, modify}
use ex_pty.Win.Conpty.Step.{
  Outcome, returned, undefined, blocked, ends, Do, next, ◌>>=◌, ◌>>◌, give, emit, ask, or_return,
  outcome,
}

-- `len` as a DWORD.
abbrev pub dword : ℕ → ℕ
dword n = n % 2 ^ 32

-- The mutex of the first handle of an id.
abbrev pub locking : Bool → Baton → Baton
locking on b = record b { locked = on }

abbrev set_locked : {T : Type 0} → ℤ → Bool → Do T (Unit {0})
set_locked id on s = next tt (record s { handles = modify (locking on) id s.handles })

module _ (a : Api) where
  -- The bytes that were written. A failing `WriteFile` returns with the mutex locked, and a second
  -- locking waits for ever.
  unfoldable pub write : {T : Type 0} → ℤ → Baton → Bytes → Do T ℕ
  write id b text =
      if b.write_ready
      then (if b.locked then (λ s. ends blocked) else (do
        emit (Event.mutex_lock id)
        set_locked id true
        elim (b.real_in) [
          | none ↦ λ s. ends undefined
          | some pipe ↦ (do
            let bytes = take (dword (length text)) text
            written ← ask (λ h. a.write_file h pipe bytes)
            emit (Event.write_file pipe bytes written)
            elim written [
              | none ↦ give 0
              | some n ↦ (do emit (Event.mutex_unlock id); set_locked id false; give n)
            ])
        ]))
      else give 0

module _ (e : Enif) where
  -- The binary, or the io-list, that a call was given.
  abbrev pub given : e.Term → Option Bytes
  given t = elim (e.inspect_binary t) [
    | some text ↦ some text
    | none ↦ e.inspect_iolist_as_binary t
  ]

  abbrev pub reply : Bytes → ℕ → e.Term
  reply text n =
      if n == length text
      then atom e (codes "ok")
      else e.make_tuple2 (atom e (codes "partial")) (e.make_int64 (pos n))

module _ (e : Enif) (a : Api) where
  abbrev find_handle : ℤ → e.Term → Do e.Term Baton
  find_handle id missing s = or_return (get_pty_baton id s.handles) missing s

  unfoldable pub write_with : ℤ → e.Term → Do e.Term e.Term
  write_with id t = do
    handle ← find_handle id (error e (codes "Invalid pty handle"))
    text ←
        or_return (given e t)
          (error e (codes "ExPTY.write/2 expects the second argument to be binary or iovec(s)"))
    n ← write a id handle text
    give (reply e text n)

  unfoldable pub expty_write : (ℕ → e.Term) → State → Outcome e.Term
  expty_write argv s = elim (get_int e (argv 0)) [
    | none ↦ returned (error e (codes "Cannot get pipesocket resource")) s
    | some id ↦ outcome (write_with id (argv 1) s)
  ]

  unfoldable pub resize_with : ℤ → ℤ → ℤ → Do e.Term e.Term
  resize_with id cols rows = do
    handle ← find_handle id (error e (codes "invalid pty handle"))
    loaded ← ask a.load_library
    emit (Event.load_library loaded)
    if loaded
        then (do
          found ← ask a.find_function
          emit (Event.find_function found)
          if found
              then (do
                emit (Event.resize_console handle.hpc (record { x = short cols; y = short rows }))
                give (atom e (codes "ok")))
              else give (error e (codes "cannot find function ResizePseudoConsole")))
        else give (error e (codes "cannot load kernel32.dll"))

  unfoldable pub expty_resize : (ℕ → e.Term) → State → Outcome e.Term
  expty_resize argv s = elim (get_int e (argv 0)) [
    | none ↦ returned e.make_badarg s
    | some id ↦ elim (get_int e (argv 1)) [
      | none ↦ returned e.make_badarg s
      | some cols ↦ elim (get_int e (argv 2)) [
        | none ↦ returned e.make_badarg s
        | some rows ↦
            if is_positive cols && is_positive rows
            then outcome (resize_with id cols rows s)
            else returned e.make_badarg s
      ]
    ]
  ]

  unfoldable pub expty_stub : (ℕ → e.Term) → State → Outcome e.Term
  expty_stub argv s =
      returned (error e (codes "invalid NIF call to platform-specific implementation")) s
