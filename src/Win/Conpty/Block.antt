-- ===== src/Win/Conpty/Block.antt =====
-- The environment block that `expty_pty_connect` of c_src/win/conpty.cc builds, as `CreateProcessW` reads
-- it.
use ex_pty.Prelude.{
  ℕ, zero, suc, ◌≡◌, ◌≢◌, refl, ap, ◌∙◌, Option, none, some, List, [], ◌∷◌, ◌++◌, Bytes, NoNul, All,
  c_str-NoNul, length, arith, append_assoc,
}
use ex_pty.Win.Path.{Wide, Windows, to_wstring}
use ex_pty.Win.PathUtil.{path_util}
use ex_pty.Win.Conpty.Connect.{env_values, env_text, env_arg, vector_from_string, env_block, widen}

-- The string up to the first NUL, and what stands behind that NUL; none where there is no NUL.
abbrev pub terminated : Wide → Option (Wide × Wide)
terminated [] = none
terminated (zero ∷ rest) = some ([], rest)
terminated (suc c ∷ rest) = elim (terminated rest) [
  | none ↦ none
  | some (value, behind) ↦ some (suc c ∷ value, behind)
]

-- Strings that each end in a NUL, up to an empty one, which has its NUL too.
abbrev pub strings : ℕ → Wide → Option (List Wide)
strings zero block = none
strings (suc n) block = elim (terminated block) [
  | none ↦ none
  | some (value, behind) ↦ elim value [
    | [] ↦ some []
    | c ∷ cs ↦ elim (strings n behind) [ none ↦ none | some values ↦ some ((c ∷ cs) ∷ values) ]
  ]
]

-- The environment of a new process: that of its parent for a null pointer. There is none where the
-- block runs out before it is terminated.
abbrev pub environment : ℕ → List Wide → Option Wide → Option (List Wide)
environment n parent none = some parent
environment n parent (some block) = strings n block

-- What an environment of the call means.
abbrev pub meant : List Wide → List Wide → List Wide
meant parent [] = parent
meant parent (value ∷ values) = value ∷ values

abbrev pub IsText : Wide → Type 0
IsText value = NoNul value × (value ≢ [])

terminated-append :
    (value rest : Wide) → NoNul value → terminated (value ++ 0 ∷ rest) ≡ some (value, rest)
terminated-append [] rest h = refl
terminated-append (zero ∷ value) rest h = absurd (ground (arith, h))
terminated-append (suc c ∷ value) rest h = rw (terminated-append value rest h.1, terminated) refl

strings-suc :
    (n : ℕ) (block : Wide) (c : ℕ) (cs behind : Wide) (values : List Wide)
    → terminated block ≡ some (c ∷ cs, behind)
    → strings n behind ≡ some values
    → strings (suc n) block ≡ some ((c ∷ cs) ∷ values)
strings-suc n block c cs behind values h k = rw (h, k, strings) refl

strings-env_values :
    (values : List Wide)
    → All IsText values
    → strings (suc (length values)) (env_values values ++ 0 ∷ []) ≡ some values
unfolding env_values
strings-env_values [] h = refl
strings-env_values ([] ∷ values) h = absurd (h.0.1 refl)
strings-env_values ((c ∷ value) ∷ values) h =
    let tail : Wide = env_values values ++ 0 ∷ [] in
    let e : env_values ((c ∷ value) ∷ values) ++ 0 ∷ [] ≡ (c ∷ value) ++ 0 ∷ tail =
      append_assoc (c ∷ value) (0 ∷ env_values values) (0 ∷ []) in
    strings-suc (suc (length values)) (env_values ((c ∷ value) ∷ values) ++ 0 ∷ []) c value tail
      values (ap terminated e ∙ terminated-append (c ∷ value) tail h.0.0)
      (strings-env_values values h.1)

vector_from_string_lem : (str : Wide) → vector_from_string str ≡ str
unfolding vector_from_string
vector_from_string_lem [] = refl
vector_from_string_lem (c ∷ str) = ap (◌∷◌ c) (vector_from_string_lem str)

env_arg-text : (text : Wide) (c : ℕ) → env_arg (text ++ c ∷ []) ≡ some (text ++ c ∷ [])
unfolding env_arg
env_arg-text [] c = refl
env_arg-text (b ∷ text) c = refl

environment-env_block :
    (parent values : List Wide)
    → All IsText values
    → environment (suc (length values)) parent (env_block values) ≡ some (meant parent values)
unfolding env_block env_text
environment-env_block parent [] h =
    ap (λ str. environment 1 parent (env_arg str)) (vector_from_string_lem [])
environment-env_block parent (value ∷ values) h =
    let text : Wide = env_values (value ∷ values) in
    ap (λ str. environment (suc (suc (length values))) parent (env_arg str))
      (vector_from_string_lem (text ++ 0 ∷ []))
    ∙ ap (environment (suc (suc (length values))) parent) (env_arg-text text 0)
    ∙ strings-env_values (value ∷ values) h

widen-IsText :
    (w : Windows) (texts : List Bytes)
    → All (λ s. to_wstring w s ≢ []) texts
    → All IsText (widen (path_util w) texts)
unfolding to_wstring
widen-IsText w [] h = tt
widen-IsText w (s ∷ texts) h = ((c_str-NoNul (w.wide s), h.0), widen-IsText w texts h.1)

-- The block of a call is terminated, as `CreateProcessW` demands, and a new process reads from it the
-- strings of the call, in order, as wide text and up to their first NUL, if none of them is empty;
-- without any string it gets the environment of its parent.
pub environment-widen :
    (w : Windows) (parent : List Wide) (texts : List Bytes)
    → All (λ s. to_wstring w s ≢ []) texts
    → environment
        (suc (length (widen (path_util w) texts)))
        parent
        (env_block (widen (path_util w) texts))
      ≡ some (meant parent (widen (path_util w) texts))
environment-widen w parent texts h =
    environment-env_block parent (widen (path_util w) texts) (widen-IsText w texts h)
