-- ===== src/Unix/Helper/Privileges.antt =====
-- The order in which c_src/unix/spawn-helper.cpp gives up its user and its group.
use ex_pty.Prelude.{
  ◌≡◌, ◌≢◌, inl, inr, refl, none, some, List, [], ◌∷◌, Bytes, ℤ, pos, negsuc, ◌==ℤ◌, ==ℤ_iff, arith,
  Option-cases, Bool-cases,
}
use ex_pty.Unix.Spawn.Run.{Decimal}
use ex_pty.Unix.Helper.Defs.{
  Event, History, Host, became, exited, threw, undefined, Step, next, ends, take_session,
  change_directory, change_user, change_group, main,
}
use ex_pty.Unix.Helper.Start.{user_of}

-- A process that has set its user to another than root may set its group to its own only, here `own`
-- for the real and the saved one.
abbrev pub BindsGroup : Host → ℤ → Type 0
BindsGroup o own =
    (h : History) (uid gid : ℤ)
    → user_of h ≡ some uid
    → uid ≢ pos 0
    → gid ≢ own
    → (errno : ℤ) × (o.setgid h gid ≡ some errno)

-- The helper has not become another program, and may yet.
abbrev pub NotYet {ℓ} : {A : Type ℓ} → Step A → Type 0
NotYet (next a h) = Unit
NotYet (ends (became file argv) h) = ⊥
NotYet (ends _ h) = Unit

-- The helper has ended, and not as another program.
abbrev pub Stopped {ℓ} : {A : Type ℓ} → Step A → Type 0
Stopped (next a h) = ⊥
Stopped (ends (became file argv) h) = ⊥
Stopped (ends _ h) = Unit

stop_then {ℓ κ} :
    {A : Type ℓ} {B : Type κ} (j : Step A) (f : A → History → Step B)
    → NotYet j
    → ((a : A) (h : History) → Stopped (f a h))
    → Stopped (elim j [ next a h ↦ f a h | ends x h ↦ ends x h ])
stop_then (next a h) f early rest = rest a h
stop_then (ends (became file argv) h) f early rest = absurd early
stop_then (ends (exited n) h) f early rest = tt
stop_then (ends threw h) f early rest = tt
stop_then (ends undefined h) f early rest = tt

bind-Stopped {ℓ κ} :
    {A : Type ℓ} {B : Type κ} (j : Step A) (f : A → History → Step B)
    → Stopped j
    → Stopped (elim j [ next a h ↦ f a h | ends x h ↦ ends x h ])
bind-Stopped (next a h) f early = absurd early
bind-Stopped (ends (became file argv) h) f early = absurd early
bind-Stopped (ends (exited n) h) f early = tt
bind-Stopped (ends threw h) f early = tt
bind-Stopped (ends undefined h) f early = tt

module _ (o : Host) where
  early_session : (h : History) → NotYet (take_session o h)
  unfolding take_session
  early_session h = ground arith

  early_directory : (dir : Bytes) (h : History) → NotYet (change_directory o dir h)
  unfolding change_directory
  early_directory [] h = tt
  early_directory (b ∷ dir) h = ground arith

  module _ (own : ℤ) (binds : BindsGroup o own) (uid gid : ℤ) (u : uid ≢ negsuc 0)
      (root : uid ≢ pos 0) (g : gid ≢ negsuc 0) (other : gid ≢ own) where
    group_stops : (h : History) → user_of h ≡ some uid → Stopped (change_group o gid h)
    unfolding change_group
    group_stops h e = ground (arith, ==ℤ_iff gid (negsuc 0), binds h uid gid e root other)

    ids_stop :
        (rest : History → Step (Unit {0})) (h : History)
        → Stopped (elim (change_user o uid h) [
          | next _ h' ↦ elim (change_group o gid h') [
            | next _ h'' ↦ rest h''
            | ends x h'' ↦ ends x h''
          ]
          | ends x h' ↦ ends x h'
        ])
    unfolding change_user
    ids_stop rest h = elim (Bool-cases (uid ==ℤ negsuc 0)) [
      | inl same ↦ absurd (u ((==ℤ_iff uid (negsuc 0)).0 same))
      | inr differ ↦ elim (Option-cases (o.setuid h uid)) [
        | inr (errno, e) ↦ rw (differ, e, change_user) tt
        | inl e ↦
            rw (differ, e, change_user)
              (bind-Stopped (change_group o gid (Event.setuid uid none ∷ h)) (λ _ h'. rest h')
                (group_stops (Event.setuid uid none ∷ h) refl))
      ]
    ]

    -- The helper sets its user before its group. So where it is asked for a user other than root and
    -- for a group that is not its own, and the system lets such a user set its group to its own only, it
    -- never becomes the program.
    pub main-Stopped :
        (d : Decimal) (path cwd su sg sc file : Bytes) (args : List Bytes) (closing : ℤ)
        → d.stoi su ≡ some uid
        → d.stoi sg ≡ some gid
        → d.stoi sc ≡ some closing
        → Stopped (main d o (path ∷ cwd ∷ su ∷ sg ∷ sc ∷ file ∷ args) [])
    unfolding main
    main-Stopped d path cwd su sg sc file args closing eu eg ec =
        stop_then _ _ (early_session [])
          λ _ h1. rw (eu, eg, ec) (stop_then _ _ (early_directory cwd _) λ _ h2. ids_stop _ h2)
