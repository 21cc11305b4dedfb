-- ===== src/Win/Search.antt =====
-- Which directories `get_shell_path` (c_src/win/path_util.cc) searches, and what it returns.
use ex_pty.Prelude.{
  ℕ, zero, suc, ◌<◌, ◌≡◌, ◌≢◌, ◌⊎◌, inl, inr, refl, true, false, none, some, List, [], ◌∷◌, ◌++◌,
  c_str, c_str_of_nonul, NoNul, All, length, arith, ap, ◌∙◌, append-nil, append_assoc, Bool-cases,
}
use ex_pty.Win.Path.{
  Wide, Windows, max_env, delimiter, find, split_loop, file_exists, search, get_shell_path,
}

-- A directory has no delimiter.
abbrev pub IsSegment : Wide → Type 0
IsSegment = All (λ c. c ≢ delimiter)

-- The text with each directory ended by a delimiter, and a rest behind the last.
abbrev pub joined : List Wide → Wide → Wide
joined [] rest = rest
joined (d ∷ ds) rest = d ++ delimiter ∷ joined ds rest

find-segment : (d rest : Wide) → IsSegment d → find (d ++ delimiter ∷ rest) ≡ some (d, rest)
unfolding find
find-segment [] rest h = ground arith
find-segment (c ∷ d) rest h = ground (arith, find-segment d rest h.1)

find_rest : (rest : Wide) → IsSegment rest → find rest ≡ none
unfolding find
find_rest [] h = refl
find_rest (c ∷ rest) h = ground (arith, find_rest rest h.1)

-- The loop finds the directories that are ended by a delimiter, in order, with a round for each and one
-- more; what stands behind the last delimiter is dropped.
pub split_loop-joined :
    (fuel : ℕ) (ds : List Wide) (rest : Wide) (paths : List Wide)
    → All IsSegment ds
    → IsSegment rest
    → length ds < fuel
    → split_loop fuel (joined ds rest) paths ≡ some (paths ++ ds)
unfolding split_loop
split_loop-joined zero ds rest paths h r lt = absurd (omega arith)
split_loop-joined (suc fuel) [] rest paths h r lt =
    rw (find_rest rest r, split_loop, append-nil) refl
split_loop-joined (suc fuel) (d ∷ ds) rest paths h r lt =
    rw (find-segment d (joined ds rest) h.0, split_loop)
      (split_loop-joined fuel ds rest (paths ++ d ∷ []) h.1 r (omega arith) ∙ rw append_assoc refl)

module _ (w : Windows) (filename : Wide) where
  abbrev pub candidate : Wide → Wide
  candidate d = w.path_combine (c_str d) (c_str filename)

  -- The file of the first directory that has it, or nothing if none has.
  abbrev pub IsFirst : List Wide → Wide → Type 0
  IsFirst ds found =
      ((front : List Wide) × (d : Wide) × (back : List Wide) × (ds ≡ front ++ d ∷ back)
        × All (λ x. file_exists w (candidate x) ≡ false) front
        × (file_exists w (candidate d) ≡ true)
        × (found ≡ c_str (candidate d)))
      ⊎ (All (λ x. file_exists w (candidate x) ≡ false) ds × (found ≡ []))

  search-IsFirst : (ds : List Wide) → IsFirst ds (search w filename ds)
  unfolding search
  search-IsFirst [] = inr (tt, refl)
  search-IsFirst (d ∷ ds) = elim (Bool-cases (file_exists w (candidate d))) [
    | inl there ↦ rw (there, search) (inl ([], d, ds, refl, tt, there, refl))
    | inr missing ↦ elim (search-IsFirst ds) [
      | inl (front, x, back, e, none_, there, found) ↦
          inl
            (d ∷ front, x, back, ap (◌∷◌ d) e, (missing, none_), there, rw (missing, search) found)
      | inr (none_, found) ↦ inr ((missing, none_), rw (missing, search) found)
    ]
  ]

  -- For a file that is not there under its own name, `get_shell_path` returns: the file of the first
  -- directory of PATH that has it, or nothing if none has. The directories are those that end in a
  -- delimiter: one behind the last delimiter is not searched.
  pub get_shell_path-IsFirst :
      (fuel : ℕ) (ds : List Wide) (rest : Wide)
      → file_exists w filename ≡ false
      → w.path_variable max_env ≡ some (joined ds rest)
      → NoNul (joined ds rest)
      → All IsSegment ds
      → IsSegment rest
      → length ds < fuel
      → (found : Wide) × (get_shell_path w fuel filename ≡ some found) × IsFirst ds found
  unfolding get_shell_path search file_exists
  get_shell_path-IsFirst fuel ds rest missing value plain h r lt = (
    search w filename ds,
    rw
        (
          missing,
          value,
          c_str_of_nonul (joined ds rest) plain,
          split_loop-joined fuel ds rest [] h r lt,
          get_shell_path,
        )
        refl,
    search-IsFirst ds,
  )
