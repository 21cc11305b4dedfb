-- ===== src/Nif/Make.antt =====
-- c_src/nif_utils.h: `atom`, `error` and `make_string`.
use ex_pty.Prelude.{ℕ, Option, none, some, [], ◌∷◌, ◌++◌, Bytes, c_str, codes, length, take}
use ex_pty.Enif.{Enif}

-- strlen
unfoldable pub strlen : Bytes → ℕ
unfolding c_str
strlen msg = length (c_str msg)

-- The bytes that `strcpy` stores: those of the string and the NUL behind it.
unfoldable pub strcpy : Bytes → Bytes
unfolding c_str
strcpy msg = c_str msg ++ 0 ∷ []

module _ (e : Enif) where
  unfoldable pub atom : Bytes → e.Term
  atom msg = elim (e.make_existing_atom msg) [ some a ↦ a | none ↦ e.make_atom msg ]

  -- Of the bytes stored, the binary keeps as many as it was allocated for. The NUL is stored one byte
  -- behind its end; what that does to the memory there is not modelled. So it is in `error`.
  unfoldable pub make_string : Bytes → Option e.Term
  unfolding strlen strcpy
  make_string msg = elim (e.make_new_binary (strlen msg)) [
    | some fill ↦ some (fill (take (strlen msg) (strcpy msg)))
    | none ↦ none
  ]

  unfoldable pub error : Bytes → e.Term
  unfolding atom strlen strcpy
  error msg = elim (e.make_new_binary (strlen msg)) [
    | some fill ↦ e.make_tuple2 (atom (codes "error")) (fill (take (strlen msg) (strcpy msg)))
    | none ↦ e.make_tuple2 (atom (codes "error")) (e.make_string msg)
  ]
