-- ===== src/Server/Programs.antt =====
-- From the server of lib/expty.ex to the program: what `expty_spawn` (c_src/unix/pty.cpp) spawns for it, and
-- what that becomes (c_src/unix/spawn-helper.cpp).
use ex_pty.Prelude.{
  ℕ, ◌≡◌, refl, true, some, [], ◌∷◌, map, Bytes, ◌⊎◌, inl, inr, c_str, false, negsuc, ◌==ℤ◌,
  if◌then◌else◌,
}
use ex_pty.Enif.{Enif, IsLawful}
use ex_pty.Nif.Containers.{get_env}
use ex_pty.Unix.Termios.{Platform}
use ex_pty.Unix.Sys.{Image, Kernel, Sys, returned, undefined}
use ex_pty.Unix.History.{images}
use ex_pty.Unix.Spawn.Args.{SpawnArgs}
use ex_pty.Unix.Spawn.Early.{fails_early, spawn_with-cases}
use ex_pty.Unix.Spawn.Run.{Decimal, resolve_id, expty_spawn}
use ex_pty.Unix.Spawn.Calls.{wanted_image, spawn_with-images}
use ex_pty.Unix.Helper.Defs.{History, Host, became, ends, main}
use ex_pty.Unix.Helper.Start.{ReadsBack, IsPlain, Succeeds}
use ex_pty.Unix.Helper.Becomes.{Prepared, helper_becomes}
use ex_pty.Server.CommandLine.{Text}
use ex_pty.Server.Terms.{Term}
use ex_pty.Server.Spawning.{UnixPack, unix_args}
use ex_pty.Server.Passed.{IsPassed, IsTyped, argv_of, read_args-unix_args}

-- A spawned helper becomes the program of the arguments, with its user, group, directory and environment.
-- -2 stands for the user or the group of the caller.
abbrev pub Becomes : Decimal → Platform → Kernel → Host → ℕ → SpawnArgs → Sys → Image → Type 0
Becomes d p k o limit a s image =
    (image.envp ≡ map c_str a.envs)
    × (h : History) × (main d o image.argv [] ≡ ends (became a.file (a.file ∷ a.args)) h)
    × Prepared p a (if a.uid ==ℤ negsuc 1 then k.getuid s.trace else a.uid)
        (if a.gid ==ℤ negsuc 1 then k.getgid s.trace else a.gid) limit h

-- For options of the types that it wants, with sizes and speeds in range, and texts that a C string holds, a call of
-- `expty_spawn` with the arguments of the server is undefined, where `argv`, the terminal or the pipe cannot be had;
-- in all other cases it returns. It has then spawned nothing, or one helper and nothing else, which, where every
-- step succeeds, becomes the file of the options with its arguments, in their environment and directory, and as
-- their user and group, of which -2 stands for those of the caller.
pub expty_spawn-Becomes :
    (e : Enif) (pass : Term → e.Term) (utf8 : Text → Bytes) (d : Decimal) (p : Platform)
    (k : Kernel) (o : Host) (limit fuel : ℕ) (pack : UnixPack) (a : SpawnArgs) (s : Sys)
    → IsLawful e
    → IsPassed e pass utf8
    → IsTyped utf8 pack a
    → get_env e fuel (pass pack.env) [] ≡ some (true, a.envs)
    → ReadsBack d
    → IsPlain a
    → Succeeds o limit
    → let call = expty_spawn e d p k fuel (argv_of e (map pass (unix_args pack))) s in
      ((fails_early p k a s ≡ true) × (call ≡ undefined))
      ⊎ ((fails_early p k a s ≡ false)
          × (t : e.Term) × (s' : Sys) × (call ≡ returned t s')
          × ((images s'.trace ≡ images s.trace)
              ⊎ ((image : Image) × (images s'.trace ≡ image ∷ images s.trace)
                  × Becomes d p k o limit a s image)))
unfolding expty_spawn resolve_id
expty_spawn-Becomes e pass utf8 d p k o limit fuel pack a s l passed typed v back plain ok =
    let uid = resolve_id a.uid (k.getuid s.trace) in
    let gid = resolve_id a.gid (k.getgid s.trace) in
    let (h, runs, prepared) = helper_becomes d p o limit a uid gid back plain ok in
    let reads = read_args-unix_args e l pass utf8 passed fuel pack a typed v in
    elim (spawn_with-cases e p k a s d) [
      | inl (early, u) ↦ inl (early, rw (reads, expty_spawn) u)
      | inr (late, t, s', r) ↦ inr (
        late,
        t,
        s',
        rw (reads, expty_spawn) r,
        elim (spawn_with-images e d p k a s t s' r) [
          | inl none_ ↦ inl none_
          | inr one ↦ inr (wanted_image e d p k a s, one, (refl, h, runs, prepared))
        ],
      )
    ]
