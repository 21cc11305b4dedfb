-- ===== src/Win/PathUtil.antt =====
-- c_src/win/path_util.h: what path_util.cc gives to the NIF, as an interface that Path fills.
use ex_pty.Prelude.{
  ℕ, zero, suc, ◌<◌, ◌≡◌, inl, inr, refl, Bool, true, none, some, Option, List, [], ◌∷◌, ◌++◌,
  Bytes, c_str, length, arith, Option-cases, Bool-cases, ◌==◌,
}
use ex_pty.Win.Path.{
  Wide, Windows, max_env, find, split_loop, to_wstring, file_exists, search, get_shell_path,
}

pub record PathUtil : Type 0 where
  pub to_wstring : Bytes → Wide
  pub file_exists : Wide → Bool
  pub get_shell_path : Wide → Wide

find-length :
    (buffer before behind : Wide)
    → find buffer ≡ some (before, behind)
    → length behind < length buffer
unfolding find
find-length [] before behind h = cc
find-length (c ∷ buffer) before behind h = elim (Bool-cases (c == 59)) [
  | inl here ↦ ground arith
  | inr later ↦ elim (Option-cases (find buffer)) [
    | inl missing ↦ absurd (ground arith)
    | inr (r, found) ↦ let shorter = find-length buffer (r.0) (r.1) found in ground (arith, shorter)
  ]
]

-- A round takes a delimiter at least off the buffer.
split_loop_returns :
    (fuel : ℕ) (buffer : Wide) (paths : List Wide)
    → length buffer < fuel
    → (r : List Wide) × (split_loop fuel buffer paths ≡ some r)
unfolding split_loop
split_loop_returns zero buffer paths h = absurd (omega arith)
split_loop_returns (suc fuel) buffer paths h = elim (Option-cases (find buffer)) [
  | inl missing ↦ (paths, rw (missing, split_loop) refl)
  | inr (r, found) ↦
      let (ds, e) =
        split_loop_returns fuel (r.1) (paths ++ r.0 ∷ [])
          (omega (arith, find-length buffer (r.0) (r.1) found)) in
      (ds, rw (found, split_loop) e)
]

module _ (w : Windows) where
  -- Rounds enough for the text of the variable.
  abbrev pub rounds : ℕ
  rounds = elim (w.path_variable max_env) [ none ↦ 1 | some value ↦ suc (length (c_str value)) ]

  found_within :
      (fuel : ℕ) (filename : Wide)
      → ((value : Wide) → w.path_variable max_env ≡ some value → length (c_str value) < fuel)
      → (found : Wide) × (get_shell_path w fuel filename ≡ some found)
  unfolding get_shell_path
  found_within fuel filename enough = elim (Bool-cases (file_exists w filename)) [
    | inl there ↦ ([], rw (there, get_shell_path) refl)
    | inr missing ↦ elim (Option-cases (w.path_variable max_env)) [
      | inl unset ↦ ([], ground arith)
      | inr (value, set) ↦
          let (ds, e) = split_loop_returns fuel (c_str value) [] (enough value set) in
          (search w filename ds, ground (arith, e))
    ]
  ]

  -- The search for a file always returns.
  pub get_shell_path_returns :
      (filename : Wide) → (found : Wide) × (get_shell_path w rounds filename ≡ some found)
  get_shell_path_returns filename =
      found_within rounds filename (λ value set. rw (set, rounds) (omega arith))

  -- What a search finds; it never runs out of its rounds.
  abbrev pub result : Option Wide → Wide
  result none = []
  result (some found) = found

  abbrev pub path_util : PathUtil
  path_util = record {
    to_wstring = to_wstring w;
    file_exists = file_exists w;
    get_shell_path = λ filename. result (get_shell_path w rounds filename);
  }

  -- A file that is there under its own name is not found.
  pub get_shell_path-file_exists :
      (filename : Wide)
      → file_exists w filename ≡ true
      → result (get_shell_path w rounds filename) ≡ []
  unfolding get_shell_path
  get_shell_path-file_exists filename there = rw (there, get_shell_path) refl
