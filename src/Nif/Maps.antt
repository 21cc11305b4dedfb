-- ===== src/Nif/Maps.antt =====
-- `get_env` of c_src/nif_utils.h against the pairs that the iterator of the map gives.
use ex_pty.Prelude.{
  ℕ, zero, suc, ◌<◌, ◌≡◌, Bool, true, false, none, some, List, [], ◌∷◌, ◌++◌, Bytes, codes, length,
  append-nil, append_assoc, arith, Option-cases, inl, inr, ◌∙◌,
}
use ex_pty.Enif.{Enif, Pairs}
use ex_pty.Nif.Scalars.{text}
use ex_pty.Nif.Containers.{entry, get_env_loop, get_env}

module _ (e : Enif) where
  -- The strings `NAME=value` of the pairs, 61 being the code of `=`, up to the first whose key or value is no text.
  abbrev pub entries : List (e.Term × e.Term) → Bool × List Bytes
  entries [] = (true, [])
  entries ((key, value) ∷ rest) = elim (text e key) [
    | none ↦ (false, [])
    | some name ↦ elim (text e value) [
      | none ↦ (false, [])
      | some val ↦ ((entries rest).0, (name ++ 61 ∷ val) ∷ (entries rest).1)
    ]
  ]

  pub get_env_loop-entries :
      (fuel : ℕ) {i : e.Iter} {pairs : List (e.Term × e.Term)} (envs : List Bytes)
      → Pairs e i pairs
      → length pairs < fuel
      → get_env_loop e fuel i envs ≡ some ((entries pairs).0, envs ++ (entries pairs).1)
  unfolding get_env_loop entry codes
  get_env_loop-entries zero envs p h = absurd (omega arith)
  get_env_loop-entries (suc fuel) envs (Pairs.stop s) h = rw (s, get_env_loop, append-nil)
  get_env_loop-entries (suc fuel) envs (Pairs.pair {key} {value} {rest} s p) h =
      rw (s, get_env_loop)
        (elim (Option-cases (text e key)) [
          | inl bad ↦ rw (bad, entries, append-nil)
          | inr (name, k) ↦ elim (Option-cases (text e value)) [
            | inl bad ↦ rw (k, bad, entries, append-nil)
            | inr (val, v) ↦
                rw (k, v, entries)
                  (get_env_loop-entries fuel (envs ++ entry name val ∷ []) p (omega arith)
                    ∙ rw append_assoc)
          ]
        ])

  -- Of a map whose iterator gives `pairs`, `get_env` needs no more rounds than there are pairs, and one
  -- to see the end. It appends an entry for each pair, in the order of the iterator, up to the first
  -- with a key or a value that is no text, and its code says whether there was no such pair.
  pub get_env-entries :
      (fuel : ℕ) (t : e.Term) (pairs : List (e.Term × e.Term)) (envs : List Bytes)
      → e.is_map t ≡ true
      → Pairs e (e.map_iterator_create t) pairs
      → length pairs < fuel
      → get_env e fuel t envs ≡ some ((entries pairs).0, envs ++ (entries pairs).1)
  unfolding get_env
  get_env-entries fuel t pairs envs m p h = rw (m, get_env) (get_env_loop-entries fuel envs p h)
