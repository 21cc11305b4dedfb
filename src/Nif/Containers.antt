-- ===== src/Nif/Containers.antt =====
-- c_src/nif_utils.h: `get_list` and `get_env`. Each gives its code, as a Boolean, and the vector as
-- the call leaves it; `none` means that the fuel of the loop ran out.
use ex_pty.Prelude.{
  ℕ, zero, suc, ◌+◌, Bool, true, false, Option, none, some, List, [], ◌∷◌, ◌++◌, Bytes, codes,
}
use ex_pty.Enif.{Enif}
use ex_pty.Nif.Scalars.{text}

-- `var_name + "=" + var_value`
unfoldable pub entry : Bytes → Bytes → Bytes
entry name value = name ++ (codes "=" ++ value)

module _ (e : Enif) where
  -- The `while` loop of `get_list`.
  unfoldable pub get_list_loop : ℕ → e.Term → List Bytes → Option (Bool × List Bytes)
  get_list_loop zero t var = none
  get_list_loop (suc fuel) t var = elim (e.get_list_cell t) [
    | none ↦ some (true, var)
    | some (head, tail) ↦ elim (e.inspect_binary head) [
      | none ↦ some (false, var)
      | some bytes ↦ get_list_loop fuel tail (var ++ bytes ∷ [])
    ]
  ]

  unfoldable pub get_list : e.Term → List Bytes → Option (Bool × List Bytes)
  unfolding get_list_loop
  get_list t var = elim (e.get_list_length t) [
    | none ↦ some (false, var)
    | some n ↦ get_list_loop (n + 1) t var
  ]

  -- The `while` loop of `get_env`.
  unfoldable pub get_env_loop : ℕ → e.Iter → List Bytes → Option (Bool × List Bytes)
  unfolding entry
  get_env_loop zero i envs = none
  get_env_loop (suc fuel) i envs = elim (e.map_iterator_get_pair i) [
    | none ↦ some (true, envs)
    | some (key, value) ↦ elim (text e key) [
      | none ↦ some (false, envs)
      | some name ↦ elim (text e value) [
        | none ↦ some (false, envs)
        | some val ↦ get_env_loop fuel (e.map_iterator_next i) (envs ++ entry name val ∷ [])
      ]
    ]
  ]

  unfoldable pub get_env : ℕ → e.Term → List Bytes → Option (Bool × List Bytes)
  unfolding get_env_loop
  get_env fuel t envs = elim (e.is_map t) [
    | false ↦ some (false, envs)
    | true ↦ get_env_loop fuel (e.map_iterator_create t) envs
  ]
