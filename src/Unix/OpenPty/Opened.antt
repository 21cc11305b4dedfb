-- ===== src/Unix/OpenPty/Opened.antt =====
-- Which descriptors `pty_openpty` (c_src/unix/pty.cpp) leaves open.
use ex_pty.Prelude.{
  ℕ, ◌≡◌, ◌⊎◌, inl, inr, refl, ap, ◌∙◌, Bool, true, false, Option, none, some, List, [], ◌∷◌, Bytes,
  pos, negsuc, ◌==◌, if◌then◌else◌, arith, Bool-cases,
}
use ex_pty.Unix.Termios.{Termios, Winsize}
use ex_pty.Unix.OpenPty.{
  Event, History, Terminals, Wanted, Stored, when, settle, slave_opened, slave_named, unlocked,
  granted, master_opened, library_opened, pty_openpty,
}

-- The first of some descriptors is taken out.
abbrev pub without : ℕ → List ℕ → List ℕ
without fd [] = []
without fd (other ∷ fds) = if other == fd then fds else other ∷ without fd fds

-- The descriptors that are open, the newest first.
abbrev pub open_fds : History → List ℕ
open_fds [] = []
open_fds (Event.open_master (some fd) ∷ h) = fd ∷ open_fds h
open_fds (Event.open_slave name (some fd) ∷ h) = fd ∷ open_fds h
open_fds (Event.openpty term size (some (master, slave, name)) ∷ h) = slave ∷ master ∷ open_fds h
open_fds (Event.close fd ∷ h) = without fd (open_fds h)
open_fds (_ ∷ h) = open_fds h

-- The call has opened a terminal, whose ends are stored where they are wanted; or it has failed, and the
-- descriptors are those that were open before.
abbrev pub Opened : Wanted → History → Stored × History → Type 0
Opened wanted h (r, h') =
    ((master : ℕ) × (slave : ℕ) × (name : Bytes) × (r ≡ record {
      code = pos 0;
      amaster = when wanted.amaster master;
      aslave = when wanted.aslave slave;
      name = when wanted.name name;
    })
      × (open_fds h' ≡ slave ∷ master ∷ open_fds h))
    ⊎ ((r.code ≡ negsuc 0) × (r.aslave ≡ none) × (open_fds h' ≡ open_fds h))

module _ (t : Terminals) (wanted : Wanted) (termp : Option Termios) (winp : Option Winsize) where
  open_fds-settle :
      (slave : ℕ) (h : History) → open_fds (settle t wanted termp winp slave h) ≡ open_fds h
  unfolding settle
  open_fds-settle slave h = ground arith

  slave_opened-Opened :
      (master : ℕ) (name : Bytes) (h h' : History) (r : Option ℕ)
      → open_fds h' ≡ master ∷ open_fds h
      → Opened wanted h (slave_opened t wanted termp winp master name h' r)
  unfolding slave_opened
  slave_opened-Opened master name h h' none e = inr (refl, refl, ground arith)
  slave_opened-Opened master name h h' (some slave) e = inl (
    master,
    slave,
    name,
    refl,
    open_fds-settle slave (Event.open_slave name (some slave) ∷ h') ∙ ap (◌∷◌ slave) e,
  )

  slave_named-Opened :
      (master : ℕ) (h h' : History) (r : Option Bytes)
      → open_fds h' ≡ master ∷ open_fds h
      → Opened wanted h (slave_named t wanted termp winp master h' r)
  unfolding slave_named
  slave_named-Opened master h h' none e = inr (refl, refl, ground arith)
  slave_named-Opened master h h' (some name) e = slave_opened-Opened master name h _ _ e

  unlocked-Opened :
      (master : ℕ) (h h' : History) (r : Bool)
      → open_fds h' ≡ master ∷ open_fds h
      → Opened wanted h (unlocked t wanted termp winp master h' r)
  unfolding unlocked
  unlocked-Opened master h h' false e = inr (refl, refl, ground arith)
  unlocked-Opened master h h' true e = slave_named-Opened master h _ _ e

  granted-Opened :
      (master : ℕ) (h h' : History) (r : Bool)
      → open_fds h' ≡ master ∷ open_fds h
      → Opened wanted h (granted t wanted termp winp master h' r)
  unfolding granted
  granted-Opened master h h' false e = inr (refl, refl, ground arith)
  granted-Opened master h h' true e = unlocked-Opened master h _ _ e

  master_opened-Opened :
      (h : History) (r : Option ℕ) → Opened wanted h (master_opened t wanted termp winp h r)
  unfolding master_opened
  master_opened-Opened h none = inr (refl, refl, refl)
  master_opened-Opened h (some master) = granted-Opened master h _ _ refl

  library_opened-Opened :
      (h : History) (r : Option (ℕ × ℕ × Bytes))
      → Opened wanted h (library_opened t wanted termp winp h r)
  unfolding library_opened
  library_opened-Opened h none = inr (refl, refl, refl)
  library_opened-Opened h (some (master, slave, name)) = inl (master, slave, name, refl, refl)

  -- A call either opens a terminal, with both descriptors open and stored where they are wanted, and
  -- gives 0; or it gives -1, stores no slave, and leaves open what was open before, on every branch.
  pub pty_openpty-Opened : (h : History) → Opened wanted h (pty_openpty t wanted termp winp h)
  unfolding pty_openpty
  pty_openpty-Opened h = elim (Bool-cases t.sun) [
    | inl sun ↦ rw (sun, pty_openpty) (master_opened-Opened h (t.open_master h))
    | inr other ↦ rw (other, pty_openpty) (library_opened-Opened h (t.openpty h))
  ]
