-- ===== src/Tests/Erl.antt =====
-- Erlang terms as data, and the NIF interface over them.
use ex_pty.Prelude.{
  ℕ, zero, suc, ◌+◌, ◌≡◌, refl, Bool, true, false, Option, none, some, List, [], ◌∷◌, ◌++◌, Bytes,
  ℤ, pos, length, arith,
}
use ex_pty.Enif.{Enif, IsLawful, Cells}

-- A list is `nil` and `cons`; a map is a list of pairs.
pub data Erl : Type 0 where
  atom : Bytes → Erl
  int : ℤ → Erl
  binary : Bytes → Erl
  nil : Erl
  cons : Erl → Erl → Erl
  pairs : Erl → Erl
  tuple2 : Erl → Erl → Erl
  tuple3 : Erl → Erl → Erl → Erl
  resource : ℕ → Erl
  badarg : Erl

abbrev list_length : Erl → Option ℕ
list_length nil = some 0
list_length (cons h t) = elim (list_length t) [ none ↦ none | some n ↦ some (suc n) ]
list_length _ = none

abbrev cell : Erl → Option (Erl × Erl)
cell (cons h t) = some (h, t)
cell _ = none

abbrev characters : Erl → Option Bytes
characters nil = some []
characters (cons (int (pos c)) t) = elim (characters t) [ none ↦ none | some cs ↦ some (c ∷ cs) ]
characters _ = none

-- 0 for what is no character list.
abbrev string_of : Erl → ℕ → ℤ × Bytes
string_of t n = elim (characters t) [
  | none ↦ (pos 0, [])
  | some cs ↦ (pos (suc (length cs)), cs ++ 0 ∷ [])
]

abbrev atom_length : Erl → Option ℕ
atom_length (atom name) = some (length name)
atom_length _ = none

abbrev atom_name : Erl → ℕ → Option Bytes
atom_name (atom name) n = some (name ++ 0 ∷ [])
atom_name _ n = none

abbrev bytes_of : Erl → Option Bytes
bytes_of (binary b) = some b
bytes_of _ = none

abbrev int_of : Erl → Option ℤ
int_of (int n) = some n
int_of _ = none

abbrev resource_of : Erl → Option ℕ
resource_of (resource r) = some r
resource_of _ = none

abbrev is_pairs : Erl → Bool
is_pairs (pairs t) = true
is_pairs _ = false

abbrev first_pair : Erl → Option (Erl × Erl)
first_pair (cons (tuple2 k v) t) = some (k, v)
first_pair _ = none

abbrev next_pair : Erl → Erl
next_pair (cons h t) = t
next_pair t = t

abbrev pairs_of : Erl → Erl
pairs_of (pairs t) = t
pairs_of t = nil

-- Every binary is allocated, and no atom exists before it is made.
abbrev pub erl : Enif
erl = record {
  Term = Erl;
  Iter = Erl;
  make_existing_atom = λ name. none;
  make_atom = atom;
  make_new_binary = λ n. some binary;
  make_string = λ name. atom name;
  make_tuple2 = tuple2;
  make_tuple3 = tuple3;
  make_int = int;
  make_int64 = int;
  make_badarg = badarg;
  make_resource = resource;
  get_atom_length = atom_length;
  get_atom = atom_name;
  get_int = int_of;
  get_int64 = int_of;
  inspect_binary = bytes_of;
  inspect_iolist_as_binary = bytes_of;
  get_list_length = list_length;
  get_string = string_of;
  get_list_cell = cell;
  is_map = is_pairs;
  map_iterator_create = pairs_of;
  map_iterator_get_pair = first_pair;
  map_iterator_next = next_pair;
  get_resource = resource_of;
}

cells_of :
    (t : Erl) (n : ℕ)
    → list_length t ≡ some n
    → (heads : List Erl) × Cells erl t heads × (length heads ≡ n)
cells_of nil n h = ([], Cells.stop refl, ground arith)
cells_of (cons x t) n h = go (cells_of t) (list_length t) refl h
  where
    go :
        ((m : ℕ)
          → list_length t ≡ some m
          → (heads : List Erl) × Cells erl t heads × (length heads ≡ m))
        → (m : Option ℕ) → list_length t ≡ m
        → elim m [ none ↦ none | some n ↦ some (suc n) ] ≡ some n
        → (heads : List Erl) × Cells erl (cons x t) heads × (length heads ≡ n)
    go rest none e q = absurd (ground arith)
    go rest (some m) e q =
        let (heads, c, len) = rest m e in (x ∷ heads, Cells.cell refl c, ground arith)
cells_of (atom _) n h = absurd (ground arith)
cells_of _ n h = absurd (ground arith)

string_of-pos :
    (t : Erl) (n : ℕ) → (buffer : Bytes) × (code : ℕ) × (string_of t n ≡ (pos code, buffer))
string_of-pos t n = go (characters t) refl
  where
    go :
        (c : Option Bytes)
        → characters t ≡ c
        → (buffer : Bytes) × (code : ℕ) × (string_of t n ≡ (pos code, buffer))
    go none e = ([], 0, rw (e, string_of) refl)
    go (some cs) e = (cs ++ 0 ∷ [], suc (length cs), rw (e, string_of) refl)

atom_text_of :
    (t : Erl) (n : ℕ)
    → atom_length t ≡ some n
    → (name : Bytes) × (length name ≡ n) × (atom_name t (n + 1) ≡ some (name ++ 0 ∷ []))
atom_text_of (atom name) n h = (name, ground arith, refl)
atom_text_of _ n h = absurd (ground arith)

pub erl-IsLawful : IsLawful erl
erl-IsLawful = record {
  list_cells = cells_of;
  atom_text = atom_text_of;
  string_text = λ t n h. string_of-pos t (n + 1);
  atom_length-make_atom = λ name. refl;
  get_atom-make_atom = λ name. refl;
  existing_atom = λ name t h. absurd (cc);
  new_binary = λ bytes fill h. ground arith;
}

-- The arguments of a call.
abbrev pub args_of : List Erl → ℕ → Erl
args_of [] n = badarg
args_of (t ∷ ts) zero = t
args_of (t ∷ ts) (suc n) = args_of ts n
