-- ===== src/Tests/Handlers.antt =====
-- The handlers at the resource of one child, on the system of Machine.
use ex_pty.Prelude.{
  ℕ, ◌≡◌, refl, true, false, none, some, [], ◌∷◌, codes, arith, pos, negsuc, ℤ, if◌then◌else◌, ◌==◌,
  is_positive, ◌&&◌,
}
use ex_pty.Nif.Scalars.{get_int, get_bool, get_atom, same_text}
use ex_pty.Unix.Sys.{Sys, returned, lookup}
use ex_pty.Unix.History.{signalled}
use ex_pty.Unix.Invariant.{IsWellFormed}
use ex_pty.Unix.Handlers.Defs.{ok, expty_kill}
use ex_pty.Unix.Handlers.Processes.{expty_kill-erases}
use ex_pty.Unix.Handlers.Settings.{KeepsSettings, SetsAll}
use ex_pty.Tests.Erl.{Erl, erl, args_of}
use ex_pty.Tests.Machine.{kernel, one_child, child_baton}

abbrev on_child : ℕ → Erl
on_child = args_of (Erl.resource 7 ∷ [])

abbrev with_signal : ℕ → Erl
with_signal = args_of (Erl.resource 7 ∷ Erl.int (pos 15) ∷ [])

abbrev with_size : ℕ → Erl
with_size = args_of (Erl.resource 7 ∷ Erl.int (pos 80) ∷ Erl.int (pos 24) ∷ [])

abbrev with_bad_size : ℕ → Erl
with_bad_size = args_of (Erl.resource 7 ∷ Erl.int (pos 80) ∷ Erl.int (negsuc 3) ∷ [])

abbrev echo_on : ℕ → Erl
echo_on = args_of (Erl.resource 7 ∷ Erl.atom (116 ∷ 114 ∷ 117 ∷ 101 ∷ []) ∷ [])

abbrev echo_off : ℕ → Erl
echo_off = args_of (Erl.resource 7 ∷ Erl.atom (111 ∷ 102 ∷ 102 ∷ []) ∷ [])

pub one_child-IsWellFormed : IsWellFormed one_child
one_child-IsWellFormed = record { keys = tt; entries = ((0, refl, omega arith, refl), tt) }

keeps : KeepsSettings kernel
keeps h fd t e = rw e

sets_all : SetsAll kernel
sets_all h fd t = refl

bad_size :
    (cols rows : ℤ)
    → get_int erl (with_bad_size 1) ≡ some cols
    → get_int erl (with_bad_size 2) ≡ some rows
    → (is_positive cols && is_positive rows) ≡ false
unfolding get_int
bad_size cols (pos n) c r = absurd (ground arith)
bad_size (pos n) (negsuc m) c r = ground arith
bad_size (negsuc n) (negsuc m) c r = refl

read_on : get_bool erl (echo_on 1) ≡ some true
unfolding get_bool get_atom same_text codes
read_on = refl

read_off : get_bool erl (echo_off 1) ≡ some false
unfolding get_bool get_atom same_text codes
read_off = refl

expty_kill-erases_example :
    (s' : Sys) × (expty_kill erl with_signal one_child ≡ returned (ok erl) s')
    × (signalled s'.trace ≡ (4242, pos 15) ∷ [])
    × IsWellFormed s'
    × ((pid : ℕ)
        → lookup pid s'.processes ≡ (if 4242 == pid then none else lookup pid one_child.processes))
unfolding get_int
expty_kill-erases_example =
    expty_kill-erases erl with_signal one_child 7 (pos 15) child_baton refl refl refl refl
      one_child-IsWellFormed
