-- ===== src/Library/Defs.antt =====
-- `ErlNifFunc`, and the functions of lib/expty_nif.ex for which the libraries have their own.
use ex_pty.Prelude.{
  ℕ, zero, suc, ◌<◌, ◌≡◌, refl, ap, sym, ◌∙◌, ◌↔◌, arith, Bool, true, false, ◌&&◌, ◌||◌, List, [],
  ◌∷◌, Bytes, codes, ℤ, pos, All, ◌==◌,
}

-- An entry of the table: a name, an arity, and the function that is called with the arguments.
pub record Function {ℓ} (T S : Type 0) (O : Type ℓ) : Type ℓ where
  pub name : Bytes
  pub arity : ℕ
  pub call : (ℕ → T) → S → O

-- The arguments of a call are the terms below the arity.
abbrev pub Agree : {T : Type 0} → ℕ → (ℕ → T) → (ℕ → T) → Type 0
Agree n argv argv' = (i : ℕ) → i < n → argv i ≡ argv' i

-- The function reads no argument that it was not given.
abbrev pub IsBounded {ℓ} : {T S : Type 0} {O : Type ℓ} → Function T S O → Type ℓ
IsBounded {T} {S} f =
    (argv argv' : ℕ → T) (s : S) → Agree f.arity argv argv' → f.call argv s ≡ f.call argv' s

abbrev pub signature {ℓ} : {T S : Type 0} {O : Type ℓ} → Function T S O → Bytes × ℕ
signature f = (f.name, f.arity)

abbrev same : Bytes → Bytes → Bool
same [] [] = true
same (x ∷ xs) (y ∷ ys) = (x == y) && same xs ys
same _ _ = false

abbrev pub exported : List (Bytes × ℕ) → Bytes × ℕ → Bool
exported [] f = false
exported ((name, arity) ∷ exports) f = (same name f.0 && (arity == f.1)) || exported exports f

-- The functions of `ExPTY.Nif`.
unfoldable pub exports : List (Bytes × ℕ)
exports =
    (codes "load_nif", 0)
    ∷ (codes "helper_path", 0)
    ∷ (codes "spawn_win32", 6)
    ∷ (codes "spawn_unix", 14)
    ∷ (codes "connect_win32", 4)
    ∷ (codes "write", 2)
    ∷ (codes "resize", 3)
    ∷ (codes "kill", 2)
    ∷ (codes "pause", 1)
    ∷ (codes "resume", 1)
    ∷ (codes "set_echo", 2)
    ∷ []

-- `erlang:load_nif`, which is no part of the repository: whether it loads a library into a module, from
-- the functions of the library and of the module, and the result of `on_load`.
pub record Loader : Type 0 where
  pub load : List (Bytes × ℕ) → List (Bytes × ℕ) → ℤ → Bool

-- The documentation: the result of `on_load` has to be 0, and the module has to have every function of
-- the library, with its arity.
abbrev pub IsLawful : Loader → Type 0
IsLawful l =
    (functions exported_by : List (Bytes × ℕ)) (result : ℤ)
    → (l.load functions exported_by result ≡ true)
      ↔ ((result ≡ pos 0) × All (λ f. exported exported_by f ≡ true) functions)

-- The first terms of the arguments, and arguments that go on with a term of no use.
abbrev firsts : {T : Type 0} → ℕ → (ℕ → T) → List T
firsts zero argv = []
firsts (suc n) argv = argv 0 ∷ firsts n (λ i. argv (suc i))

abbrev pick : {T : Type 0} → T → List T → ℕ → T
pick d [] i = d
pick d (t ∷ ts) zero = t
pick d (t ∷ ts) (suc i) = pick d ts i

firsts-Agree :
    {T : Type 0} (n : ℕ) (argv argv' : ℕ → T) → Agree n argv argv' → firsts n argv ≡ firsts n argv'
firsts-Agree zero argv argv' h = refl
firsts-Agree (suc n) argv argv' h =
    ap (λ t. t ∷ firsts n (λ i. argv (suc i))) (h 0 (omega arith))
    ∙ ap (◌∷◌ (argv' 0))
        (firsts-Agree n (λ i. argv (suc i)) (λ i. argv' (suc i)) (λ i lt. h (suc i) (omega arith)))

-- The arguments that a function of that arity sees.
abbrev pub seen : {T : Type 0} → ℕ → (ℕ → T) → ℕ → T
seen n argv = pick (argv 0) (firsts n argv)

-- A function that does no other with the terms below its arity alone.
pub seen-IsBounded {ℓ} :
    {T S : Type 0} {O : Type ℓ} (n : ℕ) (f : (ℕ → T) → S → O) (argv argv' : ℕ → T) (s : S)
    → 0 < n
    → ((xs : ℕ → T) → f xs s ≡ f (seen n xs) s)
    → Agree n argv argv'
    → f argv s ≡ f argv' s
seen-IsBounded {T} n f argv argv' s lt e h =
    e argv
    ∙ ap (λ d. f (pick d (firsts n argv)) s) (h 0 lt)
    ∙ ap (λ ts. f (pick (argv' 0) ts) s) (firsts-Agree n argv argv' h)
    ∙ sym (e argv')
