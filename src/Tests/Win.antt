-- ===== src/Tests/Win.antt =====
-- A PATH of two directories, and a console of two processes.
use ex_pty.Prelude.{
  ℕ, ◌≡◌, refl, true, false, none, some, Option, List, [], ◌∷◌, ◌++◌, if◌then◌else◌, leb, pos,
  length, drop, arith, Bool, c_str,
}
use ex_pty.Win.Path.{Wide, Windows, file_exists, get_shell_path}
use ex_pty.Win.Search.{IsFirst, get_shell_path-IsFirst}
use ex_pty.Win.Consoles.{Console, IsLawful, End, main, main_lists}

-- There is a file of that name in every directory.
abbrev in_directory : Wide → Option Bool
in_directory (a ∷ b ∷ c ∷ bytes) = some false
in_directory _ = none

abbrev pub windows : Windows
windows = record {
  wide = λ bytes. bytes;
  attributes = in_directory;
  path_variable = λ size. some (97 ∷ 59 ∷ 98 ∷ []);
  path_combine = λ d f. d ++ 92 ∷ f;
}

missing : file_exists windows (120 ∷ []) ≡ false
unfolding file_exists c_str
missing = refl

get_shell_path-IsFirst_example :
    (found : Wide) × (get_shell_path windows 2 (120 ∷ []) ≡ some found)
    × IsFirst windows (120 ∷ []) ((97 ∷ []) ∷ []) found
get_shell_path-IsFirst_example =
    get_shell_path-IsFirst windows (120 ∷ []) 2 ((97 ∷ []) ∷ []) (98 ∷ []) missing refl
      (
        (λ e. absurd (omega arith)),
        ((λ e. absurd (omega arith)), ((λ e. absurd (omega arith)), tt)),
      )
      (((λ e. absurd (omega arith)), tt), tt) ((λ e. absurd (omega arith)), tt) (omega arith)

abbrev processes : ℕ → List ℕ
processes n = 31 ∷ 37 ∷ []

abbrev console : Console
console = record {
  self_pid = pos 37;
  free_console = true;
  attach_console = λ n. true;
  console_processes =
      λ n buffer. (2, if leb 2 (length buffer) then 31 ∷ 37 ∷ drop 2 buffer else buffer);
}

console-IsLawful : IsLawful console processes
console-IsLawful = record {
  count = λ n buffer. refl;
  stored = λ n buffer le. ground arith;
  kept = λ n buffer lt. ground arith;
}

main_lists_example : main console (some (pos 31)) ≡ End.listed (31 ∷ 37 ∷ [])
main_lists_example = main_lists console processes console-IsLawful (pos 31) refl refl refl
