-- ===== src/Tests/Spawn.antt =====
-- Runs of `expty_spawn` on the system of Machine, and on systems of which one call fails.
use ex_pty.Prelude.{
  ℕ, ◌+◌, ◌≡◌, ◌⊎◌, refl, true, false, [], ◌∷◌, Bytes, codes, arith, pos, negsuc, if◌then◌else◌,
  ◌==◌, ltb, ◌&&◌, ◌++◌, ◌≤◌, List, some, none, false,
}
use ex_pty.Enif.{Pairs}
use ex_pty.Nif.Make.{error, make_string}
use ex_pty.Unix.Sys.{Event, Kernel, Sys, Outcome, returned, undefined, insert}
use ex_pty.Unix.History.{
  count, masked, is_openpty, is_posix_spawn, is_started, children, signalled, waited,
}
use ex_pty.Unix.Invariant.{IsWellFormed}
use ex_pty.Unix.Spawn.Args.{SpawnArgs, value, read_args}
use ex_pty.Unix.Spawn.Run.{spawn_with, spawn_body, launch, hand_over, cleanup, expty_spawn}
use ex_pty.Unix.Spawn.Early.{fails_early}
use ex_pty.Unix.Spawn.Calls.{Cared, spawn_with-masked, spawn_with-children}
use ex_pty.Unix.Spawn.Result.{Ending, spawn_with-Ending}
use ex_pty.Unix.Spawn.Preserves.{GivesFresh, spawn_with-IsWellFormed}
use ex_pty.Unix.Spawn.Total.{IsChecked, expty_spawn-returns}
use ex_pty.Tests.Erl.{Erl, erl, erl-IsLawful, args_of}
use ex_pty.Tests.Machine.{linux, kernel, empty_sys, one_child, no_pty_kernel}
use ex_pty.Tests.Digits.{decimal}

abbrev pub cat : Bytes
cat = 99 ∷ 97 ∷ 116 ∷ []

abbrev pub cat_args : SpawnArgs
cat_args = record {
  file = cat;
  args = [];
  envs = [];
  cwd = [];
  cols = pos 80;
  rows = pos 24;
  ibaudrate = pos 38400;
  obaudrate = pos 38400;
  uid = negsuc 1;
  gid = negsuc 1;
  is_utf8 = true;
  close_fds = true;
  echo = false;
  helper_path = 47 ∷ 104 ∷ [];
}

abbrev pub cat_terms : ℕ → Erl
cat_terms = args_of (
    Erl.binary cat
    ∷ Erl.nil
    ∷ Erl.pairs Erl.nil
    ∷ Erl.binary []
    ∷ Erl.int (pos 80)
    ∷ Erl.int (pos 24)
    ∷ Erl.int (pos 38400)
    ∷ Erl.int (pos 38400)
    ∷ Erl.int (negsuc 1)
    ∷ Erl.int (negsuc 1)
    ∷ Erl.atom (codes "true")
    ∷ Erl.atom (codes "true")
    ∷ Erl.atom (codes "false")
    ∷ Erl.binary (47 ∷ 104 ∷ [])
    ∷ [])

expty_spawn-returns_example :
    (expty_spawn erl decimal linux kernel 1 cat_terms empty_sys
      ≡ returned (error erl (codes "error")) empty_sys)
    ⊎ ((a : SpawnArgs) × IsChecked a
        × (read_args erl 1 cat_terms ≡ value a)
        × (((fails_early linux kernel a empty_sys ≡ true)
              × (expty_spawn erl decimal linux kernel 1 cat_terms empty_sys ≡ undefined))
            ⊎ ((fails_early linux kernel a empty_sys ≡ false)
                × (t : Erl) × (s' : Sys) × (expty_spawn erl decimal linux kernel 1 cat_terms
                      empty_sys
                    ≡ returned t s')
                × (spawn_with erl decimal linux kernel a empty_sys ≡ returned t s'))))
expty_spawn-returns_example =
    expty_spawn-returns erl erl-IsLawful decimal linux kernel 1 cat_terms empty_sys []
      (λ h. Pairs.stop refl) (omega arith)

spawn_with-Ending_example :
    Ending erl linux kernel cat_args empty_sys
      (spawn_with erl decimal linux kernel cat_args empty_sys)
spawn_with-Ending_example = spawn_with-Ending erl linux kernel decimal cat_args empty_sys

-- A system that gives a new resource and a new pid for each child that has come to be.
abbrev growing_kernel : Kernel
growing_kernel = record kernel {
  alloc_resource = λ h. some (count is_started h + 8);
  posix_spawn = λ h image. (0, count is_started h + 5000);
}

abbrev reply_of : Outcome Erl → Erl
reply_of (returned t s) = t
reply_of _ = Erl.badarg

abbrev state_of : Outcome Erl → Sys
state_of (returned t s) = s
state_of _ = empty_sys

-- Behind a first run, from a state with a child on resource 7.
abbrev first_run : Outcome Erl
first_run = spawn_with erl decimal linux growing_kernel cat_args one_child

abbrev second_run : Outcome Erl
second_run = spawn_with erl decimal linux growing_kernel cat_args (state_of first_run)

two_children : (state_of first_run).processes ≡ (4242, 7) ∷ (5000, 8) ∷ []
unfolding spawn_with spawn_body launch hand_over cleanup make_string insert
two_children = refl

first_returns : first_run ≡ returned (reply_of first_run) (state_of first_run)
unfolding spawn_with spawn_body launch hand_over cleanup make_string
first_returns = refl

second_returns : second_run ≡ returned (reply_of second_run) (state_of second_run)
unfolding spawn_with spawn_body launch hand_over cleanup make_string
second_returns = refl

no_fewer : (new h : List Event) → count is_started h ≤ count is_started (new ++ h)
no_fewer [] h = omega arith
no_fewer (ev ∷ new) h = ground (arith, no_fewer new h)

one_started : count is_started (state_of first_run).trace ≡ 1
unfolding spawn_with spawn_body launch hand_over cleanup make_string
one_started = refl

first_run-GivesFresh : GivesFresh growing_kernel (state_of first_run)
first_run-GivesFresh i (new, al) = rw two_children (
    let more = no_fewer new (state_of first_run).trace in
    let value : some (count is_started (new ++ (state_of first_run).trace) + 8) ≡ some i = al in
    (
      (λ e. absurd (ground (arith, more, value, one_started, e))),
      ((λ e. absurd (ground (arith, more, value, one_started, e))), tt),
    ))

one_child-IsWellFormed : IsWellFormed one_child
one_child-IsWellFormed = record { keys = tt; entries = ((0, refl, omega arith, refl), tt) }

one_child-GivesFresh : GivesFresh growing_kernel one_child
one_child-GivesFresh i (new, al) =
    let value : some (count is_started (new ++ []) + 8) ≡ some i = al in
    ((λ e. absurd (ground (arith, value, e))), tt)

spawn_with-IsWellFormed_example : IsWellFormed (state_of second_run)
spawn_with-IsWellFormed_example =
    spawn_with-IsWellFormed erl decimal linux growing_kernel cat_args (state_of first_run)
      (reply_of second_run) (state_of second_run) first_run-GivesFresh
      (spawn_with-IsWellFormed erl decimal linux growing_kernel cat_args one_child
        (reply_of first_run) (state_of first_run) one_child-GivesFresh one_child-IsWellFormed
        first_returns)
      second_returns

-- A system that has no memory for a resource.
abbrev poor_kernel : Kernel
poor_kernel = record kernel { alloc_resource = λ h. none }

abbrev failed_sys : Sys
failed_sys = state_of (spawn_with erl decimal linux poor_kernel cat_args empty_sys)

spawn_with-masked_example : masked failed_sys.trace ≡ (
    if ltb 0 (count is_openpty failed_sys.trace) && 0 == count is_posix_spawn failed_sys.trace
    then true
    else false)
unfolding spawn_with spawn_body launch hand_over cleanup make_string
spawn_with-masked_example =
    spawn_with-masked erl decimal linux poor_kernel cat_args empty_sys
      (error erl (codes "Could not allocate memory for pipesocket resource.")) failed_sys refl

abbrev started_sys : Sys
started_sys = state_of first_run

spawn_with-children_example :
    ((children started_sys.trace ≡ [])
      × (signalled started_sys.trace ≡ [])
      × (waited started_sys.trace ≡ []))
    ⊎ ((pid : ℕ) × (children started_sys.trace ≡ pid ∷ [])
        × Cared 1 started_sys.batons [] started_sys.trace pid)
spawn_with-children_example =
    spawn_with-children erl decimal linux growing_kernel cat_args one_child (reply_of first_run)
      started_sys first_returns

-- Without a terminal to be had, the call is undefined.
no_terminal : spawn_with erl decimal linux no_pty_kernel cat_args empty_sys ≡ undefined
unfolding spawn_with
no_terminal = refl
