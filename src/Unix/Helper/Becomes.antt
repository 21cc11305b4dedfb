-- ===== src/Unix/Helper/Becomes.antt =====
-- The child of `expty_spawn` (c_src/unix/pty.cpp) through c_src/unix/spawn-helper.cpp: from the
-- arguments of the call to the program that runs.
use ex_pty.Prelude.{
  ℕ, ◌-◌, ◌≡◌, Bool, true, false, not, ◌&&◌, none, some, [], ◌∷◌, Bytes, ℤ, pos, codes, c_str,
  c_str_of_nonul, map-c_str, if◌then◌else◌, arith, ltb,
}
use ex_pty.Unix.Termios.{Platform}
use ex_pty.Unix.Spawn.Args.{SpawnArgs}
use ex_pty.Unix.Spawn.Run.{Decimal, helper_argv}
use ex_pty.Unix.Helper.Defs.{Event, History, Host, became, ends, main}
use ex_pty.Unix.Helper.Start.{
  ReadsBack, IsPlain, Succeeds, user_of, group_of, directory_of, closes, close_fds-state,
  closes-close_fds, asked, asked_directory, in_session, in_directory, as_user, as_group,
  with_closed, main-ok,
}

-- Whether the helper is to close the descriptors itself.
abbrev pub closing : Platform → SpawnArgs → Bool
closing p a = a.close_fds && not p.has_cloexec_default

-- What the program finds: its user, its group, its directory, and the descriptors that were closed.
pub record Prepared (p : Platform) (a : SpawnArgs) (uid gid : ℤ) (limit : ℕ) (h : History)
    : Type 0 where
  pub user : user_of h ≡ asked uid
  pub group : group_of h ≡ asked gid
  pub directory : directory_of h ≡ asked_directory a.cwd
  pub closed : (fd : ℕ) → closes fd h ≡ (if closing p a && ltb 3 fd && ltb fd limit then 1 else 0)

module _ (o : Host) where
  started : Bytes → History
  started cwd = in_directory cwd (Event.close_on_exec 3 ∷ in_session o)

  started-state :
      (cwd : Bytes) (fd : ℕ)
      → (user_of (started cwd) ≡ none)
        × (group_of (started cwd) ≡ none)
        × (directory_of (started cwd) ≡ asked_directory cwd)
        × (closes fd (started cwd) ≡ 0)
  unfolding started
  started-state [] fd = ground arith
  started-state (b ∷ cwd) fd = ground arith

module _ (o : Host) (limit : ℕ) where
  ids : SpawnArgs → ℤ → ℤ → History
  ids a uid gid = as_group gid (as_user uid (started o a.cwd))

  ids-state :
      (a : SpawnArgs) (uid gid : ℤ) (fd : ℕ)
      → (user_of (ids a uid gid) ≡ asked uid)
        × (group_of (ids a uid gid) ≡ asked gid)
        × (directory_of (ids a uid gid) ≡ asked_directory a.cwd)
        × (closes fd (ids a uid gid) ≡ 0)
  unfolding ids
  ids-state a uid gid fd = ground (arith, started-state o a.cwd fd)

  finished : SpawnArgs → ℤ → ℤ → Bool → History
  finished a uid gid shut = with_closed shut limit (ids a uid gid)

  finished-Prepared :
      (p : Platform) (a : SpawnArgs) (uid gid : ℤ)
      → Prepared p a uid gid limit (finished a uid gid (closing p a))
  unfolding finished
  finished-Prepared p a uid gid = record {
    user = ground (arith, close_fds-state (limit - 3) 3 (ids a uid gid), ids-state a uid gid 0);
    group = ground (arith, close_fds-state (limit - 3) 3 (ids a uid gid), ids-state a uid gid 0);
    directory =
        ground (arith, close_fds-state (limit - 3) 3 (ids a uid gid), ids-state a uid gid 0);
    closed = λ fd.
        ground (arith, closes-close_fds (limit - 3) 3 fd (ids a uid gid), ids-state a uid gid fd);
  }

read_id : (d : Decimal) → ReadsBack d → (n : ℤ) → d.stoi (c_str (d.to_string n)) ≡ some n
read_id d r n = rw (c_str_of_nonul (d.to_string n) (r.printed n)) (r.back n)

read_flag :
    (d : Decimal)
    → ReadsBack d
    → (b : Bool) → d.stoi (codes (if b then "1" else "0")) ≡ some (if b then pos 1 else pos 0)
read_flag d r true = r.one
read_flag d r false = r.zero_

-- On a system where every step succeeds, the helper that `expty_spawn` starts becomes the program
-- that was asked for: `file`, with `file` and then `args` for its argument vector, as the user and in
-- the group that were asked for (-1 for no change), in the directory `cwd` if that is not empty. If
-- the caller asked for it, and the platform does not do it by itself, all descriptors from 4 to the
-- limit are closed, each once, and no other is.
pub helper_becomes :
    (d : Decimal) (p : Platform) (o : Host) (limit : ℕ) (a : SpawnArgs) (uid gid : ℤ)
    → ReadsBack d
    → IsPlain a
    → Succeeds o limit
    → (h : History) × (main d o (helper_argv d p a uid gid) []
        ≡ ends (became a.file (a.file ∷ a.args)) h)
      × Prepared p a uid gid limit h
unfolding helper_argv finished ids started
helper_becomes d p o limit a uid gid r plain ok = (
  finished o limit a uid gid (closing p a),
  rw (c_str_of_nonul a.cwd plain.cwd, c_str_of_nonul a.file plain.file, map-c_str a.args plain.args)
      (main-ok o limit ok d _ a.cwd _ _ _ a.file a.args uid gid (closing p a) (read_id d r uid)
        (read_id d r gid) (read_flag d r (closing p a))),
  finished-Prepared o limit p a uid gid,
)
