-- ===== src/Win/Path.antt =====
-- c_src/win/path_util.cc. A wide string is a list of code units.
use ex_pty.Prelude.{
  ℕ, zero, suc, Bool, false, not, Option, none, some, List, [], ◌∷◌, ◌++◌, Bytes, c_str, ◌==◌,
  if◌then◌else◌,
}

abbrev pub Wide : Type 0
Wide = List ℕ

-- The calls of Windows. `wide` gives nothing for text that is no UTF-8. `attributes` is `none` for
-- INVALID_FILE_ATTRIBUTES, and else says whether the file is a directory. `path_variable` is the text
-- that the buffer holds for `Path`, and `none` where the call returns 0.
pub record Windows : Type 0 where
  pub wide : Bytes → Wide
  pub attributes : Wide → Option Bool
  pub path_variable : ℕ → Option Wide
  pub path_combine : Wide → Wide → Wide

-- MAX_ENV
abbrev pub max_env : ℕ
max_env = 65536

-- L';'
abbrev pub delimiter : ℕ
delimiter = 59

-- `buffer.find(delimiter)`: what stands before it and behind it.
unfoldable pub find : Wide → Option (Wide × Wide)
find [] = none
find (c ∷ buffer) =
    if c == delimiter
    then some ([], buffer)
    else elim (find buffer) [ none ↦ none | some (before, behind) ↦ some (c ∷ before, behind) ]

-- The loop over the buffer; `none` means that the fuel ran out.
unfoldable pub split_loop : ℕ → Wide → List Wide → Option (List Wide)
unfolding find
split_loop zero buffer paths = none
split_loop (suc fuel) buffer paths = elim (find buffer) [
  | none ↦ some paths
  | some (before, behind) ↦ split_loop fuel behind (paths ++ before ∷ [])
]

module _ (w : Windows) where
  unfoldable pub to_wstring : Bytes → Wide
  to_wstring str = c_str (w.wide str)

  unfoldable pub file_exists : Wide → Bool
  file_exists filename = elim (w.attributes (c_str filename)) [
    | none ↦ false
    | some is_directory ↦ not is_directory
  ]

  -- The loop over the directories. The test of an array against NULL is never true.
  unfoldable pub search : Wide → List Wide → Wide
  search filename [] = []
  search filename (path ∷ paths) =
      let search_path = w.path_combine (c_str path) (c_str filename) in
      if file_exists search_path then c_str search_path else search filename paths

  unfoldable pub get_shell_path : ℕ → Wide → Option Wide
  unfolding split_loop
  get_shell_path fuel filename =
      if file_exists filename then some [] else elim (w.path_variable max_env) [
        | none ↦ some []
        | some value ↦ elim (split_loop fuel (c_str value) []) [
          | none ↦ none
          | some paths ↦ some (search filename paths)
        ]
      ]
