-- ===== src/Library/Unix.antt =====
-- `nif_functions` and `on_load` of c_src/unix/pty.cpp.
use ex_pty.Prelude.{
  ℕ, ◌≡◌, refl, Option, none, some, List, [], ◌∷◌, Bytes, codes, ℤ, pos, negsuc, All, arith,
}
use ex_pty.Enif.{Enif}
use ex_pty.Unix.Spawn.Run.{Decimal}
use ex_pty.Unix.Termios.{Platform}
use ex_pty.Unix.Sys.{Kernel, Sys, Outcome}
use ex_pty.Unix.Spawn.Args.{read_args}
use ex_pty.Unix.Spawn.Run.{expty_spawn}
use ex_pty.Unix.Write.Defs.{expty_write}
use ex_pty.Unix.Handlers.Defs.{
  expty_kill, expty_resize, expty_pause, expty_resume, expty_set_echo, expty_stub,
}
use ex_pty.Library.Defs.{Function, IsBounded, seen, seen-IsBounded}

-- `on_load`, from the resource type that it was given: its result, and `pty_pipesocket::type`.
unfoldable pub on_load : Option ℕ → ℤ × Option ℕ
on_load none = (negsuc 0, none)
on_load (some type) = (pos 0, some type)

abbrev pub on_reload : ℤ
on_reload = pos 0

abbrev pub on_upgrade : ℤ
on_upgrade = pos 0

module _ (e : Enif) (d : Decimal) (p : Platform) (k : Kernel) (fuel : ℕ) where
  abbrev Entry : Type 0
  Entry = Function e.Term Sys (Outcome e.Term)

  abbrev stub : Bytes → ℕ → Entry
  stub name arity = record { name = name; arity = arity; call = expty_stub e k }

  unfoldable pub nif_functions : List Entry
  nif_functions =
      record { name = codes "spawn_unix"; arity = 14; call = expty_spawn e d p k fuel }
      ∷ record { name = codes "write"; arity = 2; call = expty_write e k fuel }
      ∷ record { name = codes "kill"; arity = 2; call = expty_kill e }
      ∷ record { name = codes "resize"; arity = 3; call = expty_resize e k }
      ∷ record { name = codes "pause"; arity = 1; call = expty_pause e k }
      ∷ record { name = codes "resume"; arity = 1; call = expty_resume e k }
      ∷ record { name = codes "set_echo"; arity = 2; call = expty_set_echo e k }
      ∷ stub (codes "spawn_win32") 6
      ∷ stub (codes "connect_win32") 4
      ∷ []

  expty_spawn-seen :
      (argv : ℕ → e.Term) (s : Sys)
      → expty_spawn e d p k fuel argv s ≡ expty_spawn e d p k fuel (seen 14 argv) s
  unfolding expty_spawn read_args
  expty_spawn-seen argv s = refl

  expty_write-seen :
      (argv : ℕ → e.Term) (s : Sys)
      → expty_write e k fuel argv s ≡ expty_write e k fuel (seen 2 argv) s
  unfolding expty_write
  expty_write-seen argv s = refl

  expty_kill-seen :
      (argv : ℕ → e.Term) (s : Sys) → expty_kill e argv s ≡ expty_kill e (seen 2 argv) s
  unfolding expty_kill
  expty_kill-seen argv s = refl

  expty_resize-seen :
      (argv : ℕ → e.Term) (s : Sys) → expty_resize e k argv s ≡ expty_resize e k (seen 3 argv) s
  unfolding expty_resize
  expty_resize-seen argv s = refl

  expty_pause-seen :
      (argv : ℕ → e.Term) (s : Sys) → expty_pause e k argv s ≡ expty_pause e k (seen 1 argv) s
  unfolding expty_pause
  expty_pause-seen argv s = refl

  expty_resume-seen :
      (argv : ℕ → e.Term) (s : Sys) → expty_resume e k argv s ≡ expty_resume e k (seen 1 argv) s
  unfolding expty_resume
  expty_resume-seen argv s = refl

  expty_set_echo-seen :
      (argv : ℕ → e.Term) (s : Sys) → expty_set_echo e k argv s ≡ expty_set_echo e k (seen 2 argv) s
  unfolding expty_set_echo
  expty_set_echo-seen argv s = refl

  pub nif_functions-IsBounded : All IsBounded nif_functions
  unfolding nif_functions expty_stub
  nif_functions-IsBounded = (
    λ argv argv' s h.
        seen-IsBounded 14 (expty_spawn e d p k fuel) argv argv' s (omega arith)
          (λ xs. expty_spawn-seen xs s) h,
    (
      λ argv argv' s h.
          seen-IsBounded 2 (expty_write e k fuel) argv argv' s (omega arith)
            (λ xs. expty_write-seen xs s) h,
      (
        λ argv argv' s h.
            seen-IsBounded 2 (expty_kill e) argv argv' s (omega arith) (λ xs. expty_kill-seen xs s)
              h,
        (
          λ argv argv' s h.
              seen-IsBounded 3 (expty_resize e k) argv argv' s (omega arith)
                (λ xs. expty_resize-seen xs s) h,
          (
            λ argv argv' s h.
                seen-IsBounded 1 (expty_pause e k) argv argv' s (omega arith)
                  (λ xs. expty_pause-seen xs s) h,
            (
              λ argv argv' s h.
                  seen-IsBounded 1 (expty_resume e k) argv argv' s (omega arith)
                    (λ xs. expty_resume-seen xs s) h,
              (
                λ argv argv' s h.
                    seen-IsBounded 2 (expty_set_echo e k) argv argv' s (omega arith)
                      (λ xs. expty_set_echo-seen xs s) h,
                (λ argv argv' s h. refl, (λ argv argv' s h. refl, tt)),
              ),
            ),
          ),
        ),
      ),
    ),
  )
