-- ===== src/Server/Passed.antt =====
-- What `expty_spawn` (c_src/unix/pty.cpp) reads from the arguments that the server of lib/expty.ex passes.
use ex_pty.Prelude.{
  ℕ, zero, suc, ◌+◌, ◌≡◌, refl, ap, ◌∙◌, Bool, true, false, none, some, List, [], ◌∷◌, map, Bytes,
  ℤ, arith, codes, length, is_positive, is_nonneg, pos, negsuc, ltb, ◌^◌, inl, inr, Option-cases,
}
use ex_pty.Enif.{Enif, IsLawful, Cells}
use ex_pty.Nif.Scalars.{text, get_string, get_int, get_bool}
use ex_pty.Nif.Containers.{get_list, get_env}
use ex_pty.Nif.Lists.{binaries as heads_binaries, get_list_loop-binaries}
use ex_pty.Nif.Replies.{get_bool-make_atom}
use ex_pty.Unix.Spawn.Args.{value, SpawnArgs, read_args}
use ex_pty.Server.CommandLine.{Text}
use ex_pty.Server.Terms.{Term, bool, binaries}
use ex_pty.Server.Spawning.{UnixPack, unix_args}

-- An `int` has 32 bits.
abbrev pub fits_int : ℤ → Bool
fits_int (pos n) = ltb n (2 ^ 31)
fits_int (negsuc n) = ltb n (2 ^ 31)

-- How the runtime passes terms to a NIF, as `erl_nif.h` documents it: binaries with their bytes, integers
-- that an `int` holds, the two atoms of a flag, and lists.
pub record IsPassed (e : Enif) (pass : Term → e.Term) (utf8 : Text → Bytes) : Type 0 where
  pub binary_bytes : (t : Text) → e.inspect_binary (pass (Term.binary t)) ≡ some (utf8 t)
  pub true_atom : pass (bool true) ≡ e.make_atom (codes "true")
  pub false_atom : pass (bool false) ≡ e.make_atom (codes "false")
  pub integer_value : (n : ℤ) → fits_int n ≡ true → e.get_int (pass (Term.integer n)) ≡ some n
  pub empty_length : e.get_list_length (pass Term.empty) ≡ some 0
  pub empty_cell : e.get_list_cell (pass Term.empty) ≡ none
  pub cell_length :
      (head tail : Term) (n : ℕ)
      → e.get_list_length (pass tail) ≡ some n
      → e.get_list_length (pass (Term.cell head tail)) ≡ some (suc n)
  pub cell_cell :
      (head tail : Term)
      → e.get_list_cell (pass (Term.cell head tail)) ≡ some (pass head, pass tail)

-- The arguments of a call, by their places.
abbrev pub argv_of : (e : Enif) → List e.Term → ℕ → e.Term
argv_of e [] n = e.make_badarg
argv_of e (t ∷ ts) zero = t
argv_of e (t ∷ ts) (suc n) = argv_of e ts n

-- The options that `expty_spawn` takes, with what it reads from each.
pub record IsTyped (utf8 : Text → Bytes) (o : UnixPack) (a : SpawnArgs) : Type 0 where
  pub file : (t : Text) × (o.file ≡ Term.binary t) × (utf8 t ≡ a.file)
  pub args : (ts : List Text) × (binaries o.args ≡ some ts) × (map utf8 ts ≡ a.args)
  pub cwd : utf8 o.cwd ≡ a.cwd
  pub cols : (o.cols ≡ Term.integer a.cols) × (fits_int a.cols ≡ true) × (is_positive a.cols ≡ true)
  pub rows : (o.rows ≡ Term.integer a.rows) × (fits_int a.rows ≡ true) × (is_positive a.rows ≡ true)
  pub ibaudrate :
      (o.ibaudrate ≡ Term.integer a.ibaudrate)
      × (fits_int a.ibaudrate ≡ true)
      × (is_nonneg a.ibaudrate ≡ true)
  pub obaudrate :
      (o.obaudrate ≡ Term.integer a.obaudrate)
      × (fits_int a.obaudrate ≡ true)
      × (is_nonneg a.obaudrate ≡ true)
  pub uid : (o.uid ≡ Term.integer a.uid) × (fits_int a.uid ≡ true)
  pub gid : (o.gid ≡ Term.integer a.gid) × (fits_int a.gid ≡ true)
  pub is_utf8 : o.is_utf8 ≡ a.is_utf8
  pub close_fds : o.close_fds ≡ bool a.close_fds
  pub echo : o.echo ≡ bool a.echo
  pub helper_path : utf8 o.helper_path ≡ a.helper_path

the_rest :
    (head : Text) (tail : Term) {texts : List Text} (rest : List Text)
    → binaries tail ≡ some rest
    → binaries (Term.cell (Term.binary head) tail) ≡ some texts
    → texts ≡ head ∷ rest
unfolding binaries
the_rest head tail rest found h = ground arith

module _ (e : Enif) (l : IsLawful e) (pass : Term → e.Term) (utf8 : Text → Bytes)
    (p : IsPassed e pass utf8) where
  pub text-pass : (t : Text) → text e (pass (Term.binary t)) ≡ some (utf8 t)
  unfolding text get_string
  text-pass t = ground (arith, p.binary_bytes t)

  get_bool-pass : (b : Bool) → get_bool e (pass (bool b)) ≡ some b
  unfolding codes
  get_bool-pass true = rw p.true_atom (ground (arith, get_bool-make_atom e l (codes "true")))
  get_bool-pass false = rw p.false_atom (elim (get_bool-make_atom e l (codes "false")) [
    | inl (q, same) ↦ absurd (ground arith)
    | inr (q, differ) ↦ q
  ])

  -- What a list of texts is for the NIF.
  abbrev IsRead : Term → List Text → Type 0
  IsRead t texts =
      (e.get_list_length (pass t) ≡ some (length texts))
      × (heads : List e.Term) × Cells e (pass t) heads
      × (heads_binaries e heads ≡ (true, map utf8 texts))
      × (length heads ≡ length texts)

  cell-IsRead :
      (head : Text) (tail : Term) (texts : List Text)
      → IsRead tail texts
      → IsRead (Term.cell (Term.binary head) tail) (head ∷ texts)
  cell-IsRead head tail texts (len, heads, cells, bins, n) = (
    p.cell_length _ _ _ len,
    pass (Term.binary head) ∷ heads,
    Cells.cell (p.cell_cell _ _) cells,
    ground (arith, p.binary_bytes head),
    ap suc n,
  )

  binaries-IsRead : (t : Term) (texts : List Text) → binaries t ≡ some texts → IsRead t texts
  unfolding binaries
  binaries-IsRead Term.empty [] h = (p.empty_length, [], Cells.stop p.empty_cell, refl, refl)
  binaries-IsRead (Term.cell (Term.binary head) tail) texts h =
      elim (Option-cases (binaries tail)) [
        | inl none_ ↦ absurd (ground arith)
        | inr (rest, found) ↦
            rw (the_rest head tail rest found h)
              (cell-IsRead head tail rest (binaries-IsRead tail rest found))
      ]
  binaries-IsRead t texts h = absurd (ground arith)

  get_list-pass :
      (t : Term) (texts : List Text)
      → binaries t ≡ some texts
      → get_list e (pass t) [] ≡ some (true, map utf8 texts)
  unfolding get_list
  get_list-pass t texts h =
      let (len, heads, cells, bins, n) = binaries-IsRead t texts h in
      rw (len, get_list)
        (get_list_loop-binaries e (length texts + 1) [] cells (omega arith) ∙ rw bins refl)

  pub int_pass :
      {t : Term} {n : ℤ} → t ≡ Term.integer n → fits_int n ≡ true → get_int e (pass t) ≡ some n
  unfolding get_int
  int_pass q f = rw q (p.integer_value _ f)

  pub flag_pass : {t : Term} {b : Bool} → t ≡ bool b → get_bool e (pass t) ≡ some b
  flag_pass q = rw q (get_bool-pass _)

  module _ (fuel : ℕ) (argv : ℕ → e.Term) (a : SpawnArgs) where
    read_args_lem :
        text e (argv 0) ≡ some a.file
        → get_list e (argv 1) [] ≡ some (true, a.args)
        → get_env e fuel (argv 2) [] ≡ some (true, a.envs)
        → text e (argv 3) ≡ some a.cwd
        → (get_int e (argv 4) ≡ some a.cols) × (is_positive a.cols ≡ true)
        → (get_int e (argv 5) ≡ some a.rows) × (is_positive a.rows ≡ true)
        → (get_int e (argv 6) ≡ some a.ibaudrate) × (is_nonneg a.ibaudrate ≡ true)
        → (get_int e (argv 7) ≡ some a.obaudrate) × (is_nonneg a.obaudrate ≡ true)
        → get_int e (argv 8) ≡ some a.uid
        → get_int e (argv 9) ≡ some a.gid
        → get_bool e (argv 10) ≡ some a.is_utf8
        → get_bool e (argv 11) ≡ some a.close_fds
        → get_bool e (argv 12) ≡ some a.echo
        → text e (argv 13) ≡ some a.helper_path
        → read_args e fuel argv ≡ value a
    unfolding read_args
    read_args_lem f s v c (x, x') (y, y') (i, i') (o, o') u g t q w h =
        rw (f, s, v, c, x, x', y, y', i, i', o, o', u, g, t, q, w, h, read_args) refl

  -- For options of the types that it wants, with sizes that are positive and speeds that are not negative,
  -- all of which an `int` holds, and an environment that it can read, `expty_spawn` reads from the
  -- fourteen arguments of the server the options, each as it is and at its place.
  pub read_args-unix_args :
      (fuel : ℕ) (o : UnixPack) (a : SpawnArgs)
      → IsTyped utf8 o a
      → get_env e fuel (pass o.env) [] ≡ some (true, a.envs)
      → read_args e fuel (argv_of e (map pass (unix_args o))) ≡ value a
  unfolding unix_args
  read_args-unix_args fuel o a t v =
      read_args_lem fuel _ a (rw t.file.1 (text-pass t.file.0) ∙ ap some t.file.2)
        (get_list-pass o.args t.args.0 t.args.1 ∙ ap (λ ts. some (true, ts)) t.args.2) v
        (text-pass o.cwd ∙ ap some t.cwd) (int_pass t.cols.0 t.cols.1, t.cols.2)
        (int_pass t.rows.0 t.rows.1, t.rows.2) (int_pass t.ibaudrate.0 t.ibaudrate.1, t.ibaudrate.2)
        (int_pass t.obaudrate.0 t.obaudrate.1, t.obaudrate.2) (int_pass t.uid.0 t.uid.1)
        (int_pass t.gid.0 t.gid.1) (get_bool-pass o.is_utf8 ∙ ap some t.is_utf8)
        (flag_pass t.close_fds) (flag_pass t.echo) (text-pass o.helper_path ∙ ap some t.helper_path)
