-- ===== src/Unix/Helper/Start.antt =====
-- The argument vector that `expty_spawn` (c_src/unix/pty.cpp) builds, as c_src/unix/spawn-helper.cpp
-- reads it: which program the child becomes, and as whom.
use ex_pty.Prelude.{
  ℕ, zero, suc, ◌+◌, ◌-◌, ◌≡◌, refl, Bool, true, not, ◌&&◌, Option, none, some, List, [], ◌∷◌,
  Bytes, ℤ, pos, negsuc, codes, NoNul, All, ◌==◌, ◌==ℤ◌, if◌then◌else◌, arith, leb, ltb,
}
use ex_pty.Unix.Spawn.Args.{SpawnArgs}
use ex_pty.Unix.Spawn.Run.{Decimal}
use ex_pty.Unix.Helper.Defs.{
  Event, History, Host, became, next, ends, close_fds, take_session, change_directory, change_user,
  change_group, become, main,
}

-- The C++ library prints a number in characters, and reads back what it has printed.
pub record ReadsBack (d : Decimal) : Type 0 where
  pub printed : (n : ℤ) → NoNul (d.to_string n)
  pub back : (n : ℤ) → d.stoi (d.to_string n) ≡ some n
  pub one : d.stoi (codes "1") ≡ some (pos 1)
  pub zero_ : d.stoi (codes "0") ≡ some (pos 0)

-- Texts that a C string can hold.
pub record IsPlain (a : SpawnArgs) : Type 0 where
  pub file : NoNul a.file
  pub cwd : NoNul a.cwd
  pub args : All NoNul a.args

-- A system on which every step succeeds, with `limit` for the number of open files.
pub record Succeeds (o : Host) (limit : ℕ) : Type 0 where
  pub take_terminal : (h : History) → o.take_terminal h ≡ true
  pub chdir : (h : History) (dir : Bytes) → o.chdir h dir ≡ none
  pub setuid : (h : History) (uid : ℤ) → o.setuid h uid ≡ none
  pub setgid : (h : History) (gid : ℤ) → o.setgid h gid ≡ none
  pub nofile : (h : History) → o.nofile h ≡ limit
  pub execvp : (h : History) (file : Bytes) (argv : List Bytes) → o.execvp h file argv ≡ none

-- What the calls have made of the process.
abbrev pub user_of : History → Option ℤ
user_of [] = none
user_of (Event.setuid uid none ∷ h) = some uid
user_of (_ ∷ h) = user_of h

abbrev pub group_of : History → Option ℤ
group_of [] = none
group_of (Event.setgid gid none ∷ h) = some gid
group_of (_ ∷ h) = group_of h

abbrev pub directory_of : History → Option Bytes
directory_of [] = none
directory_of (Event.chdir dir none ∷ h) = some dir
directory_of (_ ∷ h) = directory_of h

abbrev pub closes : ℕ → History → ℕ
closes fd [] = 0
closes fd (Event.close other ∷ h) = if other == fd then suc (closes fd h) else closes fd h
closes fd (_ ∷ h) = closes fd h

-- Closing changes nothing else.
pub close_fds-state :
    (rounds fd : ℕ) (h : History)
    → (user_of (close_fds rounds fd h) ≡ user_of h)
      × (group_of (close_fds rounds fd h) ≡ group_of h)
      × (directory_of (close_fds rounds fd h) ≡ directory_of h)
unfolding close_fds
close_fds-state zero fd h = (refl, refl, refl)
close_fds-state (suc rounds) fd h =
    ground (
      arith,
      close_fds-state rounds (fd + 1) h,
      close_fds-state rounds (fd + 1) (Event.close fd ∷ h),
    )

-- The loop closes each descriptor from `fd` on once, up to the limit, but for the pipe of the report.
pub closes-close_fds :
    (rounds fd x : ℕ) (h : History)
    → closes x (close_fds rounds fd h)
      ≡ (if leb fd x && ltb x (fd + rounds) && not (x == 3) then suc (closes x h) else closes x h)
unfolding close_fds
closes-close_fds zero fd x h = ground arith
closes-close_fds (suc rounds) fd x h = ground (
  arith,
  closes-close_fds rounds (fd + 1) x h,
  closes-close_fds rounds (fd + 1) x (Event.close fd ∷ h),
)

-- -1 stands for no change, and so does an empty directory.
abbrev pub asked : ℤ → Option ℤ
asked id = if id ==ℤ negsuc 0 then none else some id

abbrev pub asked_directory : Bytes → Option Bytes
asked_directory [] = none
asked_directory (b ∷ dir) = some (b ∷ dir)

-- The history behind each step.
abbrev pub in_session : Host → History
in_session o =
    (if o.has_tiocsctty then Event.take_terminal true else Event.open_terminal)
    ∷ Event.setsid
    ∷ Event.unblock_signals
    ∷ []

abbrev pub in_directory : Bytes → History → History
in_directory [] h = h
in_directory (b ∷ dir) h = Event.chdir (b ∷ dir) none ∷ h

abbrev pub as_user : ℤ → History → History
as_user uid h = if uid ==ℤ negsuc 0 then h else Event.setuid uid none ∷ h

abbrev pub as_group : ℤ → History → History
as_group gid h = if gid ==ℤ negsuc 0 then h else Event.setgid gid none ∷ h

abbrev pub with_closed : Bool → ℕ → History → History
with_closed closing limit h = if closing then close_fds (limit - 3) 3 h else h

module _ (o : Host) (limit : ℕ) (ok : Succeeds o limit) where
  take_session-ok : take_session o [] ≡ next tt (in_session o)
  unfolding take_session
  take_session-ok = ground (arith, ok.take_terminal (Event.setsid ∷ Event.unblock_signals ∷ []))

  change_directory-ok :
      (dir : Bytes) (h : History) → change_directory o dir h ≡ next tt (in_directory dir h)
  unfolding change_directory
  change_directory-ok [] h = refl
  change_directory-ok (b ∷ dir) h = rw (ok.chdir h (b ∷ dir), change_directory)

  change_user-ok : (uid : ℤ) (h : History) → change_user o uid h ≡ next tt (as_user uid h)
  unfolding change_user
  change_user-ok uid h = ground (arith, ok.setuid h uid)

  change_group-ok : (gid : ℤ) (h : History) → change_group o gid h ≡ next tt (as_group gid h)
  unfolding change_group
  change_group-ok gid h = ground (arith, ok.setgid h gid)

  become-ok :
      (file : Bytes) (argv : List Bytes) (h : History)
      → become o file argv h ≡ ends (became file argv) h
  unfolding become
  become-ok file argv h = rw (ok.execvp h file argv, become)

  -- The run of the helper on an argument vector whose numbers are readable.
  pub main-ok :
      (d : Decimal) (path cwd su sg sc file : Bytes) (args : List Bytes) (uid gid : ℤ)
      (closing : Bool)
      → d.stoi su ≡ some uid
      → d.stoi sg ≡ some gid
      → d.stoi sc ≡ some (if closing then pos 1 else pos 0)
      → main d o (path ∷ cwd ∷ su ∷ sg ∷ sc ∷ file ∷ args) []
        ≡ ends (became file (file ∷ args)) (
            with_closed closing limit (
              as_group gid (as_user uid (in_directory cwd (Event.close_on_exec 3 ∷ in_session o)))))
  unfolding main
  main-ok d path cwd su sg sc file args uid gid closing u g c = ground (
    arith,
    take_session-ok,
    change_directory-ok cwd h2,
    change_user-ok uid h3,
    change_group-ok gid h4,
    ok.nofile h5,
    become-ok file (file ∷ args) (with_closed closing limit h5),
  )
    where
      h2 : History
      h2 = Event.close_on_exec 3 ∷ in_session o

      h3 : History
      h3 = in_directory cwd h2

      h4 : History
      h4 = as_user uid h3

      h5 : History
      h5 = as_group gid h4
