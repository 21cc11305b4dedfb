-- ===== src/Unix/Helper/Failure.antt =====
-- How c_src/unix/spawn-helper.cpp fails: what it reports, and the order of its steps.
use ex_pty.Prelude.{
  ℕ, zero, suc, ◌-◌, ◌≡◌, false, Option, none, some, List, [], ◌∷◌, Bytes, ℤ, pos, ◌==ℤ◌,
  if◌then◌else◌, arith, codes, ◌++◌,
}
use ex_pty.Enif.{Enif}
use ex_pty.Nif.Make.{error}
use ex_pty.Unix.Termios.{Platform}
use ex_pty.Unix.Sys.{Kernel}
use ex_pty.Unix.Spawn.Run.{Decimal, report_term, throw_for_errno}
use ex_pty.Unix.Helper.Defs.{
  Event, History, Host, End, became, exited, threw, undefined, Step, next, ends, close_fds, arg,
  or_throw, give, from, take_session, change_directory, change_user, change_group, become, main,
  comm_err_exec, comm_err_chdir, comm_err_setuid, comm_err_setgid,
}

-- The last two calls: the one that failed, and the report of its kind and error.
abbrev pub Told : History → Type 0
Told (Event.report type code ∷ Event.chdir dir (some errno) ∷ h) =
    (type ≡ comm_err_chdir) × (code ≡ errno)
Told (Event.report type code ∷ Event.setuid uid (some errno) ∷ h) =
    (type ≡ comm_err_setuid) × (code ≡ errno)
Told (Event.report type code ∷ Event.setgid gid (some errno) ∷ h) =
    (type ≡ comm_err_setgid) × (code ≡ errno)
Told (Event.report type code ∷ Event.exec_failed errno ∷ h) =
    (type ≡ comm_err_exec) × (code ≡ errno)
Told (Event.take_terminal false ∷ h) = Unit
Told _ = ⊥

-- What each end means.
abbrev pub FairEnd : End → History → Type 0
FairEnd (became file argv) h = Unit
FairEnd (exited n) h = (n ≡ 1) × Told h
FairEnd threw h = Unit
FairEnd undefined h = Unit

abbrev pub Fair {ℓ} : {A : Type ℓ} → Step A → Type 0
Fair (next a h) = Unit
Fair (ends x h) = FairEnd x h

bind-Fair {ℓ κ} :
    {A : Type ℓ} {B : Type κ} (j : Step A) (f : A → History → Step B)
    → Fair j
    → ((a : A) (h : History) → Fair (f a h))
    → Fair (elim j [ next a h ↦ f a h | ends x h ↦ ends x h ])
bind-Fair (next a h) f fair rest = rest a h
bind-Fair (ends x h) f fair rest = fair

arg-Fair : (argv : List Bytes) (i : ℕ) (h : History) → Fair (arg argv i h)
arg-Fair [] i h = tt
arg-Fair (x ∷ xs) zero h = tt
arg-Fair (x ∷ xs) (suc i) h = arg-Fair xs i h

or_throw-Fair : (n : Option ℤ) (h : History) → Fair (or_throw n h)
or_throw-Fair none h = tt
or_throw-Fair (some n) h = tt

module _ (o : Host) where
  take_session-Fair : (h : History) → Fair (take_session o h)
  unfolding take_session
  take_session-Fair h = ground arith

  change_directory-Fair : (dir : Bytes) (h : History) → Fair (change_directory o dir h)
  unfolding change_directory
  change_directory-Fair [] h = tt
  change_directory-Fair (b ∷ dir) h = ground arith

  change_user-Fair : (uid : ℤ) (h : History) → Fair (change_user o uid h)
  unfolding change_user
  change_user-Fair uid h = ground arith

  change_group-Fair : (gid : ℤ) (h : History) → Fair (change_group o gid h)
  unfolding change_group
  change_group-Fair gid h = ground arith

  become-Fair : (file : Bytes) (argv : List Bytes) (h : History) → Fair (become o file argv h)
  unfolding become
  become-Fair file argv h = ground arith

  close_step : ℤ → History → Step (Unit {0})
  close_step closing =
      if closing ==ℤ pos 0 then give tt else (λ h. next tt (close_fds (o.nofile h - 3) 3 h))

  close_step-Fair : (closing : ℤ) (h : History) → Fair (close_step closing h)
  unfolding close_step
  close_step-Fair closing h = ground arith

  -- Where the helper exits, its status is 1, and the call before is one that failed: either the
  -- terminal could not be taken, of which there is no report, or the helper has reported the kind of
  -- the call that failed, and its error.
  pub main-Fair : (d : Decimal) (argv : List Bytes) (h : History) → Fair (main d o argv h)
  unfolding main close_step
  main-Fair d argv h = bind-Fair _ _ (take_session-Fair h) λ _ h1.
      bind-Fair _ _ (arg-Fair argv 1 h1) λ cwd h2. bind-Fair _ _ (arg-Fair argv 2 h2) λ su h3.
        bind-Fair _ _ (or_throw-Fair (d.stoi su) h3) λ uid h4.
          bind-Fair _ _ (arg-Fair argv 3 h4) λ sg h5.
            bind-Fair _ _ (or_throw-Fair (d.stoi sg) h5) λ gid h6.
              bind-Fair _ _ (arg-Fair argv 4 h6) λ sc h7.
                bind-Fair _ _ (or_throw-Fair (d.stoi sc) h7) λ closing h8.
                  bind-Fair _ _ (arg-Fair argv 5 h8) λ file h9.
                    bind-Fair _ _ (change_directory-Fair cwd _) λ _ h10.
                      bind-Fair _ _ (change_user-Fair uid h10) λ _ h11.
                        bind-Fair _ _ (change_group-Fair gid h11) λ _ h12.
                          bind-Fair _ _ (close_step-Fair closing h12)
                            λ _ h13. become-Fair file (from 5 argv) h13

-- The words of `expty_spawn` for a call of the helper that has failed.
abbrev pub words_for : Event → Bytes
words_for (Event.chdir dir failed) = codes "chdir() failed: "
words_for (Event.setuid uid failed) = codes "setuid() failed: "
words_for (Event.setgid gid failed) = codes "setgid() failed: "
words_for (Event.exec_failed errno) = codes "exec() failed: "
words_for _ = codes ""

-- A report of the helper is answered by `expty_spawn` with the name of the call that has failed, and
-- with the text of its error.
pub report_term-words :
    (e : Enif) (p : Platform) (k : Kernel) (type code : ℤ) (failed : Event) (h : History)
    → Told (Event.report type code ∷ failed ∷ h)
    → report_term e p k type code ≡ error e (words_for failed ++ k.strerror code)
unfolding report_term throw_for_errno
report_term-words e p k type code (Event.chdir dir (some errno)) h t = ground arith
report_term-words e p k type code (Event.setuid uid (some errno)) h t = ground arith
report_term-words e p k type code (Event.setgid gid (some errno)) h t = ground arith
report_term-words e p k type code (Event.exec_failed errno) h t = ground arith
report_term-words e p k type code _ h t = absurd t
