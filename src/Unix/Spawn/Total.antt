-- ===== src/Unix/Spawn/Total.antt =====
-- `expty_spawn` (c_src/unix/pty.cpp) checks its arguments first, and does not go on for ever.
use ex_pty.Prelude.{
  ℕ, ◌<◌, ◌≡◌, ◌⊎◌, inl, inr, refl, Bool, true, false, some, List, [], Bytes, arith, is_positive,
  is_nonneg, codes, length, Option-cases, Bool-cases,
}
use ex_pty.Enif.{Enif, IsLawful, Pairs}
use ex_pty.Nif.Make.{error}
use ex_pty.Nif.Containers.{get_list, get_env}
use ex_pty.Nif.Lists.{get_list-binaries}
use ex_pty.Nif.Maps.{get_env-entries}
use ex_pty.Unix.Termios.{Platform}
use ex_pty.Unix.Sys.{Kernel, Sys, returned, undefined}
use ex_pty.Unix.Spawn.Args.{Read, value, refused, no_fuel, SpawnArgs, read_args}
use ex_pty.Unix.Spawn.Early.{fails_early, spawn_with-cases}
use ex_pty.Unix.Spawn.Run.{Decimal, spawn_with, expty_spawn}

-- The tests of the condition.
pub record IsChecked (a : SpawnArgs) : Type 0 where
  pub cols : is_positive a.cols ≡ true
  pub rows : is_positive a.rows ≡ true
  pub ibaudrate : is_nonneg a.ibaudrate ≡ true
  pub obaudrate : is_nonneg a.obaudrate ≡ true

Read-cases {ℓ} :
    {A : Type ℓ} (r : Read A) → ((a : A) × (r ≡ value a)) ⊎ ((r ≡ refused) ⊎ (r ≡ no_fuel))
Read-cases (value a) = inl (a, refl)
Read-cases refused = inr (inl refl)
Read-cases no_fuel = inr (inr refl)

module _ (e : Enif) where
  list_returns :
      (l : IsLawful e) (t : e.Term) → (r : Bool × List Bytes) × (get_list e t [] ≡ some r)
  unfolding get_list
  list_returns l t = elim (Option-cases (e.get_list_length t)) [
    | inl missing ↦ ((false, []), rw (missing, get_list))
    | inr (n, len) ↦ let (heads, c, k, run) = get_list-binaries e l t n [] len in (_, run)
  ]

  env_returns :
      (fuel : ℕ) (t : e.Term) (pairs : List (e.Term × e.Term))
      → (e.is_map t ≡ true → Pairs e (e.map_iterator_create t) pairs)
      → length pairs < fuel
      → (r : Bool × List Bytes) × (get_env e fuel t [] ≡ some r)
  unfolding get_env
  env_returns fuel t pairs p lt = elim (Bool-cases (e.is_map t)) [
    | inr no_map ↦ ((false, []), rw (no_map, get_env))
    | inl is_map ↦ (_, get_env-entries e fuel t pairs [] is_map (p is_map) lt)
  ]

  module _ (fuel : ℕ) (argv : ℕ → e.Term) where
    read_args-IsChecked : {a : SpawnArgs} → read_args e fuel argv ≡ value a → IsChecked a
    unfolding read_args
    read_args-IsChecked h = ground arith

    enough_fuel :
        {r r' : Bool × List Bytes}
        → get_list e (argv 1) [] ≡ some r
        → get_env e fuel (argv 2) [] ≡ some r'
        → read_args e fuel argv ≡ no_fuel
        → ⊥
    unfolding read_args
    enough_fuel p q h = ground arith

-- Given fuel for the pairs of the environment, `expty_spawn` does not go on for ever. It refuses its
-- arguments, replies `error`, and has done nothing at all; or its arguments have a size that is positive
-- and speeds that are not negative. Then it is undefined, where `argv`, the terminal or the pipe cannot be
-- had, and in all other cases it runs with these arguments and returns.
pub expty_spawn-returns :
    (e : Enif) (l : IsLawful e) (d : Decimal) (p : Platform) (k : Kernel) (fuel : ℕ)
    (argv : ℕ → e.Term) (s : Sys) (pairs : List (e.Term × e.Term))
    → (e.is_map (argv 2) ≡ true → Pairs e (e.map_iterator_create (argv 2)) pairs)
    → length pairs < fuel
    → (expty_spawn e d p k fuel argv s ≡ returned (error e (codes "error")) s)
      ⊎ ((a : SpawnArgs) × IsChecked a
          × (read_args e fuel argv ≡ value a)
          × (((fails_early p k a s ≡ true) × (expty_spawn e d p k fuel argv s ≡ undefined))
              ⊎ ((fails_early p k a s ≡ false)
                  × (t : e.Term) × (s' : Sys) × (expty_spawn e d p k fuel argv s ≡ returned t s')
                  × (spawn_with e d p k a s ≡ returned t s'))))
unfolding expty_spawn
expty_spawn-returns e l d p k fuel argv s pairs map_pairs lt =
    elim (Read-cases (read_args e fuel argv)) [
      | inl (a, h) ↦ inr (
        a,
        read_args-IsChecked e fuel argv h,
        h,
        elim (spawn_with-cases e p k a s d) [
          | inl (early, u) ↦ inl (early, rw (h, expty_spawn) u)
          | inr (late, t, s', r) ↦ inr (late, t, s', rw (h, expty_spawn) r, r)
        ],
      )
      | inr (inl h) ↦ inl (rw (h, expty_spawn))
      | inr (inr h) ↦
          let (r, p1) = list_returns e l (argv 1) in
          let (r', p2) = env_returns e fuel (argv 2) pairs map_pairs lt in
          absurd (enough_fuel e fuel argv p1 p2 h)
    ]
