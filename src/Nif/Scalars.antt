-- ===== src/Nif/Scalars.antt =====
-- c_src/nif_utils.h: `get_atom` and the overloads of `get` for `bool`, `int` and `std::string`.
use ex_pty.Prelude.{
  zero, suc, ◌+◌, Bool, true, false, ◌&&◌, Option, none, some, [], ◌∷◌, Bytes, ℤ, pos, negsuc,
  codes, take, ◌==◌, ◌==ℤ◌,
}
use ex_pty.Enif.{Enif}

-- std::string's operator==
unfoldable pub same_text : Bytes → Bytes → Bool
same_text [] [] = true
same_text [] (b ∷ bs) = false
same_text (a ∷ cs) [] = false
same_text (a ∷ cs) (b ∷ bs) = a == b && same_text cs bs

-- `var.resize(ret - 1)` on success, `var.resize(0)` on failure; a negative code leaves the buffer.
unfoldable pub resized : ℤ × Bytes → Bytes
resized (pos zero, buffer) = []
resized (pos (suc n), buffer) = take n buffer
resized (negsuc n, buffer) = buffer

module _ (e : Enif) where
  -- The text on success.
  unfoldable pub get_atom : e.Term → Option Bytes
  get_atom t = elim (e.get_atom_length t) [
    | none ↦ none
    | some n ↦ elim (e.get_atom t (n + 1)) [ none ↦ none | some buffer ↦ some (take n buffer) ]
  ]

  unfoldable pub get_bool : e.Term → Option Bool
  unfolding get_atom
  get_bool t = elim (get_atom t) [ none ↦ none | some text ↦ some (same_text text (codes "true")) ]

  unfoldable pub get_int : e.Term → Option ℤ
  get_int t = e.get_int t

  unfoldable pub get_int64 : e.Term → Option ℤ
  get_int64 t = e.get_int64 t

  -- The code that is returned, and the variable behind the call, which held `var` before it.
  unfoldable pub get_string : e.Term → Bytes → ℤ × Bytes
  unfolding resized
  get_string t var = elim (e.inspect_binary t) [
    | some bytes ↦ (pos 1, bytes)
    | none ↦ elim (e.get_list_length t) [
      | some n ↦ ((e.get_string t (n + 1)).0, resized (e.get_string t (n + 1)))
      | none ↦ (pos 0, var)
    ]
  ]

  -- The text, if the code is one that a condition takes for true.
  unfoldable pub text : e.Term → Option Bytes
  unfolding get_string
  text t = let r = get_string t [] in elim (r.0 ==ℤ pos 0) [ true ↦ none | false ↦ some (r.1) ]
