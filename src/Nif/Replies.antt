-- ===== src/Nif/Replies.antt =====
-- What the terms made by c_src/nif_utils.h hold, and where their text is stored.
use ex_pty.Prelude.{
  ◌≡◌, ◌≢◌, refl, some, List, [], ◌∷◌, ◌++◌, Bytes, c_str, codes, length, take, drop, take_left,
  arith, Option-cases, ◌⊎◌, inl, inr, true, false,
}
use ex_pty.Enif.{Enif, IsLawful}
use ex_pty.Nif.Make.{strlen, strcpy, atom, error}
use ex_pty.Nif.Scalars.{same_text, get_atom, get_bool}

drop_left {ℓ} : {A : Type ℓ} (xs ys : List A) → drop (length xs) (xs ++ ys) ≡ ys
drop_left [] ys = refl
drop_left (x ∷ xs) ys = drop_left xs ys

-- `error` and `make_string` allocate as many bytes as the text has, and `strcpy` stores one more: of
-- any text, the byte behind the end of the binary is overwritten with a NUL, and no other.
pub strcpy-overruns :
    (msg : Bytes)
    → (take (strlen msg) (strcpy msg) ≡ c_str msg) × (drop (strlen msg) (strcpy msg) ≡ 0 ∷ [])
unfolding strlen strcpy
strcpy-overruns msg = (take_left (c_str msg) (0 ∷ []), drop_left (c_str msg) (0 ∷ []))

module _ (e : Enif) (l : IsLawful e) where
  -- An atom is the same term whether or not it existed before.
  pub atom-make_atom : (msg : Bytes) → atom e msg ≡ e.make_atom msg
  unfolding atom
  atom-make_atom msg = elim (Option-cases (e.make_existing_atom msg)) [
    | inl missing ↦ rw (missing, atom)
    | inr (t, found) ↦ rw (found, atom) (l.existing_atom msg t found)
  ]

  -- Where the binary of a reply is allocated, the reply is the pair of the atom `error` and a term
  -- that reads back as the text up to its first NUL.
  pub error_reads_back :
      (msg : Bytes) {fill : Bytes → e.Term}
      → e.make_new_binary (strlen msg) ≡ some fill
      → (reason : e.Term) × (error e msg ≡ e.make_tuple2 (e.make_atom (codes "error")) reason)
        × (e.inspect_binary reason ≡ some (c_str msg))
  unfolding error strlen
  error_reads_back msg {fill} h = (
    fill (c_str msg),
    ground (arith, atom-make_atom (codes "error"), (strcpy-overruns msg).0),
    l.new_binary (c_str msg) fill h,
  )

  -- The text of an atom that was made from a name is that name.
  pub get_atom-make_atom : (name : Bytes) → get_atom e (e.make_atom name) ≡ some name
  unfolding get_atom
  get_atom-make_atom name =
      ground
        (arith, l.atom_length-make_atom name, l.get_atom-make_atom name, take_left name (0 ∷ []))

same_text_self : (bs : Bytes) → same_text bs bs ≡ true
unfolding same_text
same_text_self [] = refl
same_text_self (b ∷ bs) = ground (arith, same_text_self bs)

-- Two texts compare equal only if they are.
pub same_text→eq : (cs bs : Bytes) → same_text cs bs ≡ true → cs ≡ bs
unfolding same_text
same_text→eq [] [] h = refl
same_text→eq [] (b ∷ bs) h = cc
same_text→eq (a ∷ cs) [] h = cc
same_text→eq (a ∷ cs) (b ∷ bs) h = ground (arith, same_text→eq cs bs)

module _ (e : Enif) (l : IsLawful e) where
  -- An atom is read as `true` exactly if its name is true; any other atom is read as `false`.
  pub get_bool-make_atom :
      (name : Bytes)
      → ((get_bool e (e.make_atom name) ≡ some true) × (name ≡ codes "true"))
        ⊎ ((get_bool e (e.make_atom name) ≡ some false) × (name ≢ codes "true"))
  unfolding get_bool
  get_bool-make_atom name = ground (
    arith,
    get_atom-make_atom e l name,
    same_text→eq name (codes "true"),
    same_text_self (codes "true"),
  )
