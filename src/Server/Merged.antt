-- ===== src/Server/Merged.antt =====
-- What the options that `init` of lib/expty.ex reads are worth, and when it raises an exception.
use ex_pty.Prelude.{
  ◌≡◌, refl, inl, inr, Bool, true, false, Option, none, some, [], ◌∷◌, ◌++◌, arith, codes,
  if◌then◌else◌, Bool-cases, Option-cases,
}
use ex_pty.Server.CommandLine.{Text}
use ex_pty.Server.Terms.{Term, nil, bool, or_else, is_boolean, is_binary, Exported}
use ex_pty.Server.Calls.{Os, Callback}
use ex_pty.Server.Options.{
  Key, same_key, Keywords, Host, default_unix, default_pty_options, has_key, fetch, without, merge,
}
use ex_pty.Server.Spawning.{Pack}
use ex_pty.Server.Init.{Reason, Result, callback, init_unix, init_with, init}

fetch-append :
    (xs ys : Keywords) (k : Key)
    → fetch (xs ++ ys) k ≡ (if has_key k xs then fetch xs k else fetch ys k)
fetch-append [] ys k = refl
fetch-append ((j, t) ∷ xs) ys k = ground (arith, fetch-append xs ys k)

has_key-same_key :
    (j k : Key) (opts : Keywords) → same_key j k ≡ true → has_key j opts ≡ has_key k opts
has_key-same_key j k [] h = refl
has_key-same_key j k ((i, t) ∷ opts) h = ground (arith, has_key-same_key j k opts h)

has_key-without :
    (k : Key) (old new : Keywords) → has_key k new ≡ true → has_key k (without old new) ≡ false
has_key-without k [] new h = refl
has_key-without k ((j, t) ∷ old) new h =
    ground (arith, has_key-without k old new h, has_key-same_key j k new)

fetch-without :
    (k : Key) (old new : Keywords) → has_key k new ≡ false → fetch (without old new) k ≡ fetch old k
fetch-without k [] new h = refl
fetch-without k ((j, t) ∷ old) new h =
    ground (arith, fetch-without k old new h, has_key-same_key j k new)

-- Without a key there is no value.
fetch-missing : (k : Key) (opts : Keywords) → has_key k opts ≡ false → fetch opts k ≡ nil
fetch-missing k [] h = refl
fetch-missing k ((j, t) ∷ opts) h = ground (arith, fetch-missing k opts)

-- A merged list has the first new value of a key, and without one the old value.
pub fetch-merge :
    (old new : Keywords) (k : Key)
    → fetch (merge old new) k ≡ (if has_key k new then fetch new k else fetch old k)
fetch-merge old new k = elim (Bool-cases (has_key k new)) [
  | inl there ↦
      rw (fetch-append (without old new) new k, has_key-without k old new there, there) refl
  | inr missing ↦
      rw (fetch-append (without old new) new k, missing)
        (ground (
          arith,
          fetch-without k old new missing,
          fetch-missing k new missing,
          fetch-missing k (without old new),
        ))
]

-- The value of an option: the first that the caller gives, or else the default.
abbrev pub asked : Host → Text → Keywords → Key → Term
asked host home opts k = if has_key k opts then fetch opts k else fetch (default_unix host home) k

abbrev pub wanted_flow : Host → Text → Keywords → Option Bool
wanted_flow host home opts =
    is_boolean (or_else (asked host home opts Key.handle_flow_control) (bool false))

abbrev pub wanted_pause : Host → Text → Keywords → Option Text
wanted_pause host home opts =
    is_binary (or_else (asked host home opts Key.flow_control_pause) (Term.binary (0x13 ∷ [])))

abbrev pub wanted_resume : Host → Text → Keywords → Option Text
wanted_resume host home opts =
    is_binary (or_else (asked host home opts Key.flow_control_resume) (Term.binary (0x11 ∷ [])))

abbrev pub wanted_cwd : Host → Text → Keywords → Option Text
wanted_cwd host home opts = host.expand (asked host home opts Key.cwd)

abbrev is_none {ℓ} : {A : Type ℓ} → Option A → Bool
is_none none = true
is_none (some a) = false

-- The first of the wanted values that cannot be had.
abbrev pub fault : Host → Text → Keywords → Option Reason
fault host home opts =
    if is_none (wanted_cwd host home opts)
    then some Reason.bad_path
    else if is_none (wanted_flow host home opts)
    then some Reason.bad_flow_control
    else if is_none (wanted_pause host home opts)
    then some Reason.bad_pause
    else if is_none (wanted_resume host home opts)
    then some Reason.bad_resume
    else none

abbrev pub IsInitialised : Host → Text → Keywords → Result Pack → Type 0
IsInitialised host home opts (Result.raised r) = fault host home opts ≡ some r
IsInitialised host home opts (Result.ok (Pack.unix o)) =
    (wanted_cwd host home opts ≡ some o.cwd)
    × (wanted_flow host home opts ≡ some o.handle_flow_control)
    × (wanted_pause host home opts ≡ some o.flow_control_pause)
    × (wanted_resume host home opts ≡ some o.flow_control_resume)
    × (asked host home opts Key.env ≡ o.env)
    × (asked host home opts Key.cols ≡ o.cols)
    × (asked host home opts Key.rows ≡ o.rows)
IsInitialised host home opts (Result.ok (Pack.win32 o)) = ⊥

by_os : (os : Os) (a b : Result Pack) → os ≡ Os.unix → elim os [ Os.unix ↦ a | Os.win32 ↦ b ] ≡ a
by_os Os.unix a b u = refl
by_os Os.win32 a b u = absurd (ground arith)

module _ (host : Host) (home : Text) (opts options : Keywords)
    (same : (k : Key) → fetch options k ≡ asked host home opts k) where
  init_unix-IsInitialised :
      (file args : Term) (cwd : Text) (on_data on_exit : Option Callback)
      → wanted_cwd host home opts ≡ some cwd
      → IsInitialised host home opts (init_unix host file args options cwd on_data on_exit)
  unfolding init_unix
  init_unix-IsInitialised file args cwd on_data on_exit c = ground (
    arith,
    same Key.handle_flow_control,
    same Key.flow_control_pause,
    same Key.flow_control_resume,
    same Key.env,
    same Key.cols,
    same Key.rows,
  )

  pub init_with_lem :
      (file args : Term) (cwd : Text)
      → host.os ≡ Os.unix
      → wanted_cwd host home opts ≡ some cwd
      → init_with host file args options
        ≡ init_unix host file
            (or_else args Term.empty)
            options
            cwd
            (callback host Exported.on_data 3 3 (or_else (fetch options Key.on_data) nil))
            (callback host Exported.on_exit 4 3 (or_else (fetch options Key.on_exit) nil))
  unfolding init_with
  init_with_lem file args cwd u c = rw (same Key.cwd, c, init_with) (by_os host.os _ _ u)

  init_with-IsInitialised :
      (file args : Term)
      → host.os ≡ Os.unix
      → IsInitialised host home opts (init_with host file args options)
  unfolding init_with
  init_with-IsInitialised file args u = elim (Option-cases (wanted_cwd host home opts)) [
    | inl missing ↦ rw (same Key.cwd, missing, init_with, IsInitialised) (rw missing refl)
    | inr (cwd, c) ↦ rw (init_with_lem file args cwd u c) (search init_unix-IsInitialised)
  ]

pub options_lem :
    (host : Host) (home : Text)
    → host.os ≡ Os.unix
    → host.expand (Term.binary (codes "~")) ≡ some home
    → default_pty_options host ≡ some (default_unix host home)
unfolding default_pty_options
options_lem host home u h = rw (h, default_pty_options) (rw u refl)

pub init-IsInitialised :
    (host : Host) (home : Text) (file args : Term) (opts : Keywords)
    → host.os ≡ Os.unix
    → host.expand (Term.binary (codes "~")) ≡ some home
    → IsInitialised host home opts (init host file args opts)
unfolding init
init-IsInitialised host home file args opts u h =
    rw (options_lem host home u h, init)
      (init_with-IsInitialised host home opts (merge (default_unix host home) opts)
        (fetch-merge (default_unix host home) opts) file args u)
