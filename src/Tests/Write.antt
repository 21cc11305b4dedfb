-- ===== src/Tests/Write.antt =====
-- Writes of a short text on the system of Machine, four bytes at a time.
use ex_pty.Prelude.{ℕ, ◌≡◌, refl, inl, [], ◌∷◌, Bytes, arith}
use ex_pty.Unix.Sys.{Sys, returned, running}
use ex_pty.Unix.Write.Defs.{write, write_loop, unlocked, expty_write}
use ex_pty.Unix.Write.Rounds.{taken}
use ex_pty.Unix.Write.Prefix.{WritesWithin, Returns, Delivers, SawClosed, write-Delivers}
use ex_pty.Unix.Write.Ends.{Takes}
use ex_pty.Unix.Write.Stuck.{IsStuck, write-runs}
use ex_pty.Unix.Write.Reply.{Tells, expty_write-Tells, expty_write-completes}
use ex_pty.Tests.Erl.{Erl, erl, args_of}
use ex_pty.Tests.Machine.{kernel, deaf_kernel, one_child, child_baton}

abbrev hello : Bytes
hello = 104 ∷ 101 ∷ 108 ∷ 108 ∷ 111 ∷ []

kernel-WritesWithin : WritesWithin kernel
kernel-WritesWithin h fd bytes n e = ground arith

deaf-WritesWithin : WritesWithin deaf_kernel
deaf-WritesWithin h fd bytes n e = absurd (ground arith)

kernel-Takes : Takes kernel 0
kernel-Takes = record {
  patience = λ h. 0;
  bounded = λ h. omega arith;
  takes = λ h fd bytes lt refused. absurd (ground arith);
}

deaf-IsStuck : (fd : ℕ) (bytes : Bytes) → IsStuck deaf_kernel fd bytes
deaf-IsStuck fd bytes = record { refuses = λ h. refl; stays_open = λ h. refl }

abbrev write_args : ℕ → Erl
write_args = args_of (Erl.resource 7 ∷ Erl.binary hello ∷ [])

write_hello :
    (s' : Sys) × (write kernel 7 hello 10 one_child ≡ returned 5 s') × (taken 10 s'.trace ≡ hello)
unfolding write write_loop unlocked
write_hello = (_, refl, refl)

write-Delivers_example :
    Returns
      (Delivers kernel 7 hello (SawClosed kernel 7 hello) 10 [])
      (write kernel 7 hello 10 one_child)
write-Delivers_example =
    write-Delivers kernel 7 hello kernel-WritesWithin 10 one_child (ground arith)

expty_write-Tells_example :
    Returns (Tells erl kernel 7 hello one_child) (expty_write erl kernel 10 write_args one_child)
expty_write-Tells_example =
    expty_write-Tells erl kernel 10 write_args one_child 7 hello kernel-WritesWithin (ground arith)
      refl (inl refl)

expty_write-completes_example :
    (t : Erl) × (s' : Sys) × (expty_write erl kernel 6 write_args one_child ≡ returned t s')
    × Tells erl kernel 7 hello one_child t s'
expty_write-completes_example =
    expty_write-completes erl kernel write_args one_child 7 hello 0 6 child_baton
      kernel-WritesWithin kernel-Takes (ground arith) (ground arith) (ground arith) refl (inl refl)
      refl

write-runs_example : write deaf_kernel 7 hello 50 one_child ≡ running
write-runs_example =
    write-runs deaf_kernel 7 hello 50 one_child child_baton (deaf-IsStuck _ _) refl refl
