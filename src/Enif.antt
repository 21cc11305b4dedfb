-- ===== src/Enif.antt =====
-- The Erlang NIF interface (`erl_nif.h`, not part of the repository) as a parameter: the calls that
-- the sources make, each as a function of its arguments, and what its documentation promises.
use ex_pty.Prelude.{
  ℕ, ◌+◌, ◌≡◌, Bool, Option, none, some, List, [], ◌∷◌, ◌++◌, Bytes, ℤ, pos, length,
}

-- A binary that may fail to be allocated is `none`; the caller fills an allocated one with bytes.
pub record Enif : Type 1 where
  pub Term : Type 0
  pub Iter : Type 0
  -- Terms made.
  pub make_existing_atom : Bytes → Option Term
  pub make_atom : Bytes → Term
  pub make_new_binary : ℕ → Option (Bytes → Term)
  pub make_string : Bytes → Term
  pub make_tuple2 : Term → Term → Term
  pub make_tuple3 : Term → Term → Term → Term
  pub make_int : ℤ → Term
  pub make_int64 : ℤ → Term
  pub make_badarg : Term
  pub make_resource : ℕ → Term
  -- Terms read. `get_string` returns its code and the buffer that it was given.
  pub get_atom_length : Term → Option ℕ
  pub get_atom : Term → ℕ → Option Bytes
  pub get_int : Term → Option ℤ
  pub get_int64 : Term → Option ℤ
  pub inspect_binary : Term → Option Bytes
  pub inspect_iolist_as_binary : Term → Option Bytes
  pub get_list_length : Term → Option ℕ
  pub get_string : Term → ℕ → ℤ × Bytes
  pub get_list_cell : Term → Option (Term × Term)
  pub is_map : Term → Bool
  pub map_iterator_create : Term → Iter
  pub map_iterator_get_pair : Iter → Option (Term × Term)
  pub map_iterator_next : Iter → Iter
  pub get_resource : Term → Option ℕ

-- The heads met when a list is taken apart cell by cell.
pub data Cells (e : Enif) : e.Term → List e.Term → Type 0 where
  stop : {t : e.Term} → e.get_list_cell t ≡ none → Cells e t []
  cell :
      {t head tail : e.Term} {heads : List e.Term}
      → e.get_list_cell t ≡ some (head, tail)
      → Cells e tail heads
      → Cells e t (head ∷ heads)

-- The pairs that an iterator still has to give.
pub data Pairs (e : Enif) : e.Iter → List (e.Term × e.Term) → Type 0 where
  stop : {i : e.Iter} → e.map_iterator_get_pair i ≡ none → Pairs e i []
  pair :
      {i : e.Iter} {key value : e.Term} {rest : List (e.Term × e.Term)}
      → e.map_iterator_get_pair i ≡ some (key, value)
      → Pairs e (e.map_iterator_next i) rest
      → Pairs e i ((key, value) ∷ rest)

-- What the documentation of the calls promises.
pub record IsLawful (e : Enif) : Type 0 where
  -- A list of length n is proper, and has n cells.
  pub list_cells :
      (t : e.Term) (n : ℕ)
      → e.get_list_length t ≡ some n
      → (heads : List e.Term) × Cells e t heads × (length heads ≡ n)
  -- An atom is written with a NUL behind it into a buffer that holds both.
  pub atom_text :
      (t : e.Term) (n : ℕ)
      → e.get_atom_length t ≡ some n
      → (name : Bytes) × (length name ≡ n) × (e.get_atom t (n + 1) ≡ some (name ++ 0 ∷ []))
  -- A character list of length n fits a buffer of n + 1 with its NUL; other lists give 0.
  pub string_text :
      (t : e.Term) (n : ℕ)
      → e.get_list_length t ≡ some n
      → (buffer : Bytes) × (code : ℕ) × (e.get_string t (n + 1) ≡ (pos code, buffer))
  -- A made atom is read back, and an atom is no binary.
  pub atom_length-make_atom :
      (name : Bytes) → e.get_atom_length (e.make_atom name) ≡ some (length name)
  pub get_atom-make_atom :
      (name : Bytes) → e.get_atom (e.make_atom name) (length name + 1) ≡ some (name ++ 0 ∷ [])
  -- An existing atom is the atom of that name.
  pub existing_atom :
      (name : Bytes) (t : e.Term) → e.make_existing_atom name ≡ some t → t ≡ e.make_atom name
  -- An allocated binary holds what the caller has put into all of its bytes.
  pub new_binary :
      (bytes : Bytes) (fill : Bytes → e.Term)
      → e.make_new_binary (length bytes) ≡ some fill
      → e.inspect_binary (fill bytes) ≡ some bytes
