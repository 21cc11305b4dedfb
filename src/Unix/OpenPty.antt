-- ===== src/Unix/OpenPty.antt =====
-- `pty_openpty` of c_src/unix/pty.cpp, with its calls of the operating system as events.
pub mod Opened
use ex_pty.Prelude.{
  ℕ, ◌≡◌, ◌⊎◌, inl, inr, refl, ap, ◌∙◌, Bool, true, false, Option, none, some, List, [], ◌∷◌, Bytes,
  codes, ℤ, pos, negsuc, ◌==◌, if◌then◌else◌, arith, Bool-cases,
}
use ex_pty.Unix.Termios.{Termios, Winsize}

pub data Event : Type 0 where
  open_master : Option ℕ → Event
  grantpt unlockpt : ℕ → Bool → Event
  ptsname : ℕ → Option Bytes → Event
  open_slave : Bytes → Option ℕ → Event
  push : ℕ → Bytes → Event
  set_attributes : ℕ → Termios → Event
  set_winsize : ℕ → Winsize → Event
  close : ℕ → Event
  openpty : Option Termios → Option Winsize → Option (ℕ × ℕ × Bytes) → Event

-- The events so far, the newest first.
abbrev pub History : Type 0
History = List Event

-- `sun` is what the preprocessor knows; `none` and `false` stand for a failing call. `openpty` gives the
-- master, the slave and its name.
pub record Terminals : Type 0 where
  pub sun : Bool
  pub open_master : History → Option ℕ
  pub grantpt : History → ℕ → Bool
  pub unlockpt : History → ℕ → Bool
  pub ptsname : History → ℕ → Option Bytes
  pub open_slave : History → Bytes → Option ℕ
  pub openpty : History → Option (ℕ × ℕ × Bytes)

-- Which of the pointers `amaster`, `aslave` and `name` are there.
pub record Wanted : Type 0 where
  pub amaster : Bool
  pub aslave : Bool
  pub name : Bool

-- The result, and what was stored through the pointers.
pub record Stored : Type 0 where
  pub code : ℤ
  pub amaster : Option ℕ
  pub aslave : Option ℕ
  pub name : Option Bytes

abbrev pub when {ℓ} : {A : Type ℓ} → Bool → A → Option A
when b a = if b then some a else none

module _ (t : Terminals) (wanted : Wanted) (termp : Option Termios) (winp : Option Winsize) where
  -- The label `err`, with what was stored before it.
  abbrev err : ℕ → Option Bytes → History → Stored × History
  err master name h = (
    record { code = negsuc 0; amaster = when wanted.amaster master; aslave = none; name = name },
    Event.close master ∷ h,
  )

  -- The modules of the slave, its settings and its size. Their results are ignored.
  unfoldable pub settle : ℕ → History → History
  settle slave h =
      let h1 : History =
        Event.push slave (codes "ttcompat")
        ∷ Event.push slave (codes "ldterm")
        ∷ Event.push slave (codes "ptem")
        ∷ h in
      let h2 : History = elim termp [
        | none ↦ h1
        | some term ↦ Event.set_attributes slave term ∷ h1
      ] in
      elim winp [ none ↦ h2 | some size ↦ Event.set_winsize slave size ∷ h2 ]

  -- Behind each call, with its reply and the events before it.
  unfoldable pub slave_opened : ℕ → Bytes → History → Option ℕ → Stored × History
  unfolding settle
  slave_opened master slave_name h none =
      err master (when wanted.name slave_name) (Event.open_slave slave_name none ∷ h)
  slave_opened master slave_name h (some slave) = (
    record {
      code = pos 0;
      amaster = when wanted.amaster master;
      aslave = when wanted.aslave slave;
      name = when wanted.name slave_name;
    },
    settle slave (Event.open_slave slave_name (some slave) ∷ h),
  )

  unfoldable pub slave_named : ℕ → History → Option Bytes → Stored × History
  unfolding slave_opened
  slave_named master h none = err master none (Event.ptsname master none ∷ h)
  slave_named master h (some slave_name) =
      let h' : History = Event.ptsname master (some slave_name) ∷ h in
      slave_opened master slave_name h' (t.open_slave h' slave_name)

  unfoldable pub unlocked : ℕ → History → Bool → Stored × History
  unfolding slave_named
  unlocked master h false = err master none (Event.unlockpt master false ∷ h)
  unlocked master h true =
      let h' : History = Event.unlockpt master true ∷ h in
      slave_named master h' (t.ptsname h' master)

  unfoldable pub granted : ℕ → History → Bool → Stored × History
  unfolding unlocked
  granted master h false = err master none (Event.grantpt master false ∷ h)
  granted master h true =
      let h' : History = Event.grantpt master true ∷ h in unlocked master h' (t.unlockpt h' master)

  abbrev refused : Stored
  refused = record { code = negsuc 0; amaster = none; aslave = none; name = none }

  unfoldable pub master_opened : History → Option ℕ → Stored × History
  unfolding granted
  master_opened h none = (refused, Event.open_master none ∷ h)
  master_opened h (some master) =
      let h' : History = Event.open_master (some master) ∷ h in
      granted master h' (t.grantpt h' master)

  -- Elsewhere than on a Sun, the call of the library.
  unfoldable pub library_opened : History → Option (ℕ × ℕ × Bytes) → Stored × History
  library_opened h none = (refused, Event.openpty termp winp none ∷ h)
  library_opened h (some (master, slave, slave_name)) = (
    record {
      code = pos 0;
      amaster = when wanted.amaster master;
      aslave = when wanted.aslave slave;
      name = when wanted.name slave_name;
    },
    Event.openpty termp winp (some (master, slave, slave_name)) ∷ h,
  )

  unfoldable pub pty_openpty : History → Stored × History
  unfolding master_opened library_opened
  pty_openpty h =
      if t.sun then master_opened h (t.open_master h) else library_opened h (t.openpty h)
