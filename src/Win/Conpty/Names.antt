-- ===== src/Win/Conpty/Names.antt =====
-- Which programs `expty_spawn` of c_src/win/conpty.cc finds with the search of c_src/win/path_util.cc.
use ex_pty.Prelude.{◌≡◌, refl, true, [], ◌++◌, codes, c_str}
use ex_pty.Enif.{Enif}
use ex_pty.Nif.Make.{error}
use ex_pty.Win.Path.{Windows, to_wstring, file_exists}
use ex_pty.Win.PathUtil.{path_util, get_shell_path-file_exists}
use ex_pty.Win.Conpty.State.{Api, State}
use ex_pty.Win.Conpty.Step.{returned, outcome}
use ex_pty.Win.Conpty.Spawn.{SpawnArgs, shell_path, spawn_with}

module _ (e : Enif) (w : Windows) (a : Api) (args : SpawnArgs) (s : State) where
  shell_path-found :
      a.path_is_relative (c_str (to_wstring w args.file)) ≡ true
      → file_exists w (c_str (to_wstring w args.file)) ≡ true
      → shell_path e (path_util w) a (to_wstring w args.file) ≡ []
  unfolding shell_path
  shell_path-found r f =
      rw (r, shell_path) (get_shell_path-file_exists w (c_str (to_wstring w args.file)) f)

  -- A relative name under which there is a file is refused as not found, and nothing is done: the search
  -- gives no path for it.
  pub spawn_with-relative :
      a.path_is_relative (c_str (to_wstring w args.file)) ≡ true
      → file_exists w (c_str (to_wstring w args.file)) ≡ true
      → outcome (spawn_with e (path_util w) a args s)
        ≡ returned (error e (codes "File not found: " ++ a.to_bytes [])) s
  unfolding spawn_with
  spawn_with-relative r f = rw (shell_path-found r f, spawn_with, outcome) refl
