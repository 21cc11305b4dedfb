-- ===== src/Library/Windows.antt =====
-- `nif_functions` and `on_load` of c_src/win/conpty.cc.
use ex_pty.Prelude.{ℕ, ◌≡◌, refl, ap, Option, some, List, [], ◌∷◌, Bytes, codes, ℤ, pos, All, arith}
use ex_pty.Enif.{Enif}
use ex_pty.Win.PathUtil.{PathUtil}
use ex_pty.Win.Conpty.State.{Api, State}
use ex_pty.Win.Conpty.Step.{Outcome}
use ex_pty.Win.Conpty.Spawn.{expty_spawn, read_args}
use ex_pty.Win.Conpty.Connect
use ex_pty.Win.Conpty.Connect.{expty_pty_connect}
use ex_pty.Win.Conpty.Handlers.{expty_write, expty_resize, expty_stub}
use ex_pty.Library.Defs.{Function, IsBounded, seen, seen-IsBounded}

-- `on_load`, `on_reload` and `on_upgrade`.
abbrev pub on_load : ℤ
on_load = pos 0

abbrev pub on_reload : ℤ
on_reload = pos 0

abbrev pub on_upgrade : ℤ
on_upgrade = pos 0

module _ (e : Enif) (u : PathUtil) (a : Api) (fuel : ℕ) where
  abbrev Entry : Type 0
  Entry = Function e.Term State (Option (Outcome e.Term))

  abbrev stub : Bytes → ℕ → Entry
  stub name arity = record {
    name = name;
    arity = arity;
    call = λ argv s. some (expty_stub e a argv s);
  }

  unfoldable pub nif_functions : List Entry
  nif_functions =
      record {
        name = codes "spawn_win32";
        arity = 6;
        call = λ argv s. some (expty_spawn e u a argv s);
      }
      ∷ record { name = codes "write"; arity = 2; call = λ argv s. some (expty_write e a argv s) }
      ∷ record { name = codes "resize"; arity = 3; call = λ argv s. some (expty_resize e a argv s) }
      ∷ record { name = codes "connect_win32"; arity = 4; call = expty_pty_connect e u a fuel }
      ∷ stub (codes "spawn_unix") 13
      ∷ stub (codes "pause") 1
      ∷ stub (codes "resume") 1
      ∷ []

  expty_spawn-seen :
      (argv : ℕ → e.Term) (s : State) → expty_spawn e u a argv s ≡ expty_spawn e u a (seen 6 argv) s
  unfolding expty_spawn read_args
  expty_spawn-seen argv s = refl

  expty_write-seen :
      (argv : ℕ → e.Term) (s : State) → expty_write e a argv s ≡ expty_write e a (seen 2 argv) s
  unfolding expty_write
  expty_write-seen argv s = refl

  expty_resize-seen :
      (argv : ℕ → e.Term) (s : State) → expty_resize e a argv s ≡ expty_resize e a (seen 3 argv) s
  unfolding expty_resize
  expty_resize-seen argv s = refl

  expty_pty_connect-seen :
      (argv : ℕ → e.Term) (s : State)
      → expty_pty_connect e u a fuel argv s ≡ expty_pty_connect e u a fuel (seen 4 argv) s
  unfolding expty_pty_connect Connect.read_args
  expty_pty_connect-seen argv s = refl

  pub nif_functions-IsBounded : All IsBounded nif_functions
  unfolding nif_functions expty_stub
  nif_functions-IsBounded = (
    λ argv argv' s h. ap some (
        seen-IsBounded 6 (expty_spawn e u a) argv argv' s (omega arith)
          (λ xs. expty_spawn-seen xs s) h),
    (
      λ argv argv' s h. ap some (
          seen-IsBounded 2 (expty_write e a) argv argv' s (omega arith)
            (λ xs. expty_write-seen xs s) h),
      (
        λ argv argv' s h. ap some (
            seen-IsBounded 3 (expty_resize e a) argv argv' s (omega arith)
              (λ xs. expty_resize-seen xs s) h),
        (
          λ argv argv' s h.
              seen-IsBounded 4 (expty_pty_connect e u a fuel) argv argv' s (omega arith)
                (λ xs. expty_pty_connect-seen xs s) h,
          (λ argv argv' s h. refl, (λ argv argv' s h. refl, (λ argv argv' s h. refl, tt))),
        ),
      ),
    ),
  )
