-- ===== src/Tests/Helper.antt =====
-- Runs of the helper on hosts where every step succeeds, and where a user binds the group.
use ex_pty.Prelude.{
  zero, suc, refl, true, none, some, [], ◌∷◌, codes, arith, pos, negsuc, ℤ, Option, ◌≡◌, ◌≢◌, inl,
  inr, Bool-cases, ◌==ℤ◌, ==ℤ_iff, if◌then◌else◌,
}
use ex_pty.Unix.Spawn.Run.{helper_argv}
use ex_pty.Unix.Helper.Defs.{Host, main}
use ex_pty.Unix.Helper.Start.{Succeeds, IsPlain, user_of}
use ex_pty.Unix.Helper.Failure.{Fair, main-Fair}
use ex_pty.Unix.Helper.Privileges.{BindsGroup, Stopped, main-Stopped}
use ex_pty.Tests.Machine.{linux}
use ex_pty.Tests.Digits.{decimal, decimal-ReadsBack, to_string}
use ex_pty.Tests.Spawn.{cat_args}

abbrev pub host : Host
host = record {
  has_tiocsctty = true;
  take_terminal = λ h. true;
  chdir = λ h dir. none;
  setuid = λ h uid. none;
  setgid = λ h gid. none;
  nofile = λ h. 256;
  execvp = λ h file argv. none;
}

pub host-Succeeds : Succeeds host 256
host-Succeeds = record {
  take_terminal = λ h. refl;
  chdir = λ h dir. refl;
  setuid = λ h uid. refl;
  setgid = λ h gid. refl;
  nofile = λ h. refl;
  execvp = λ h file argv. refl;
}

cat_args-IsPlain : IsPlain cat_args
cat_args-IsPlain = record {
  file = (
    (λ e. absurd (omega arith)),
    ((λ e. absurd (omega arith)), ((λ e. absurd (omega arith)), tt)),
  );
  cwd = tt;
  args = tt;
}

-- EPERM for a user other than root.
abbrev group_reply : Option ℤ → Option ℤ
group_reply none = none
group_reply (some (pos zero)) = none
group_reply (some _) = some (pos 1)

abbrev strict_host : Host
strict_host = record host {
  setgid = λ h gid. if gid ==ℤ pos 50 then none else group_reply (user_of h);
}

strict-BindsGroup : BindsGroup strict_host (pos 50)
strict-BindsGroup h uid gid e root other = elim (Bool-cases (gid ==ℤ pos 50)) [
  | inl same ↦ absurd (other ((==ℤ_iff gid (pos 50)).0 same))
  | inr differ ↦ rw (differ, e) (bound uid root)
]
  where
    bound : (n : ℤ) → n ≢ pos 0 → (errno : ℤ) × (group_reply (some n) ≡ some errno)
    bound (pos zero) root = absurd (root refl)
    bound (pos (suc n)) root = (pos 1, refl)
    bound (negsuc n) root = (pos 1, refl)

main-Fair_example :
    Fair (main decimal strict_host (helper_argv decimal linux cat_args (pos 1000) (pos 100)) [])
main-Fair_example =
    main-Fair strict_host decimal (helper_argv decimal linux cat_args (pos 1000) (pos 100)) []

main-Stopped_example : Stopped (
    main decimal strict_host
      (codes "h" ∷ [] ∷ to_string (pos 1000) ∷ to_string (pos 100) ∷ codes "1" ∷ codes "cat" ∷ [])
      [])
main-Stopped_example =
    main-Stopped strict_host (pos 50) strict-BindsGroup (pos 1000) (pos 100)
      (λ e. absurd (ground arith)) (λ e. absurd (ground arith)) (λ e. absurd (ground arith))
      (λ e. absurd (ground arith)) decimal (codes "h") [] (to_string (pos 1000))
      (to_string (pos 100)) (codes "1") (codes "cat") [] (pos 1) (decimal-ReadsBack.back (pos 1000))
      (decimal-ReadsBack.back (pos 100)) decimal-ReadsBack.one
