-- ===== src/Win/Conpty/Numbered.antt =====
-- The ids in `ptyHandles` of c_src/win/conpty.cc, and which handle an id finds.
use ex_pty.Prelude.{
  ℕ, ◌+◌, ◌≤◌, ◌<◌, ◌^◌, ◌≡◌, ◌≢◌, refl, false, none, some, List, [], ◌∷◌, ◌++◌, ℤ, arith, ◌==ℤ◌,
  ==ℤ_iff, All, if◌then◌else◌, ◌∙◌, ap, Bool-cases, inl, inr,
}
use ex_pty.Win.Conpty.State.{Baton, State, increment, signed32, get_pty_baton, modify}

-- The ids are those of rising counts, from above `low` up to `high`.
abbrev pub Rising : ℕ → ℕ → List Baton → Type 0
Rising low high [] = low ≤ high
Rising low high (b ∷ handles) =
    (n : ℕ) × (b.id ≡ signed32 n) × (low < n) × (n ≤ high) × Rising n high handles

-- Every handle has a count of its own, up to the counter, which has not wrapped around.
pub record IsNumbered (s : State) : Type 0 where
  pub rising : Rising 0 s.counter s.handles
  pub bounded : s.counter < 2 ^ 32

signed32-inj : (m n : ℕ) → m < 2 ^ 32 → n < 2 ^ 32 → m ≢ n → (signed32 m ==ℤ signed32 n) ≡ false
signed32-inj m n hm hn ne = ground arith

Rising-append :
    (low high : ℕ) (handles : List Baton) (b : Baton)
    → Rising low high handles
    → b.id ≡ signed32 (high + 1)
    → Rising low (high + 1) (handles ++ b ∷ [])
Rising-append low high [] b r e = (high + 1, e, omega arith, omega arith, omega arith)
Rising-append low high (c ∷ handles) b (n, id, lt, le, rest) e =
    (n, id, lt, omega arith, Rising-append n high handles b rest e)

Rising-le : (low high : ℕ) (handles : List Baton) → Rising low high handles → low ≤ high
Rising-le low high [] r = r
Rising-le low high (b ∷ handles) (n, id, lt, le, rest) = omega arith

-- A count above the handles' is none of theirs.
get_pty_baton-above :
    (low high : ℕ) (handles : List Baton)
    → Rising low high handles
    → high + 1 < 2 ^ 32
    → get_pty_baton (signed32 (high + 1)) handles ≡ none
unfolding get_pty_baton
get_pty_baton-above low high [] r lt = refl
get_pty_baton-above low high (b ∷ handles) (n, id, above, le, rest) lt =
    rw (id, signed32-inj n (high + 1) (omega arith) lt (omega arith), get_pty_baton)
      (get_pty_baton-above n high handles rest lt)

get_pty_baton-append :
    (id : ℤ) (handles : List Baton) (b : Baton)
    → get_pty_baton b.id handles ≡ none
    → get_pty_baton id (handles ++ b ∷ [])
      ≡ (if b.id ==ℤ id then some b else get_pty_baton id handles)
unfolding get_pty_baton
get_pty_baton-append id [] b h = refl
get_pty_baton-append id (c ∷ handles) b h =
    ground (
      arith,
      get_pty_baton-append id handles b,
      ==ℤ_iff c.id id,
      ==ℤ_iff b.id id,
      ==ℤ_iff c.id b.id,
    )

-- A new handle keeps the numbering, is found by its id, and changes what no other id finds.
module _ (s s' : State) (b : Baton) where
  pub register-IsNumbered :
      IsNumbered s
      → s.counter + 1 < 2 ^ 32
      → b.id ≡ signed32 (increment s.counter)
      → s'.handles ≡ s.handles ++ b ∷ []
      → s'.counter ≡ increment s.counter
      → IsNumbered s'
        × ((id : ℤ)
            → get_pty_baton id s'.handles
              ≡ (if b.id ==ℤ id then some b else get_pty_baton id s.handles))
  unfolding increment
  register-IsNumbered w lt e h c =
      let count : s'.counter ≡ s.counter + 1 = c ∙ omega arith in
      let number : b.id ≡ signed32 (s.counter + 1) = e ∙ ap signed32 (omega arith) in
      (
        record {
          rising = rw (h, count) (Rising-append 0 s.counter s.handles b w.rising number);
          bounded = omega arith;
        },
        λ id. rw h (
            get_pty_baton-append id s.handles b
              (rw number (get_pty_baton-above 0 s.counter s.handles w.rising lt))),
      )

-- An assignment through a pointer keeps the ids.
abbrev pub KeepsId : (Baton → Baton) → Type 0
KeepsId f = (b : Baton) → (f b).id ≡ b.id

pub Rising-modify :
    (f : Baton → Baton) (id : ℤ) (low high : ℕ) (handles : List Baton)
    → KeepsId f
    → Rising low high handles
    → Rising low high (modify f id handles)
unfolding modify
Rising-modify f id low high [] k r = r
Rising-modify f id low high (b ∷ handles) k (n, e, lt, le, rest) = elim (Bool-cases (b.id ==ℤ id)) [
  | inl here ↦ rw (here, modify) (n, k b ∙ e, lt, le, rest)
  | inr later ↦ rw (later, modify) (n, e, lt, le, Rising-modify f id n high handles k rest)
]

pub modify-IsNumbered :
    (f : Baton → Baton) (id : ℤ) (s s' : State)
    → KeepsId f
    → s'.handles ≡ modify f id s.handles
    → s'.counter ≡ s.counter
    → IsNumbered s
    → IsNumbered s'
modify-IsNumbered f id s s' k h c w = record {
  rising = rw (h, c) (Rising-modify f id 0 s.counter s.handles k w.rising);
  bounded = omega arith;
}

pub get_pty_baton-modify :
    (f : Baton → Baton) (id : ℤ) (handles : List Baton) (b : Baton)
    → KeepsId f
    → get_pty_baton id handles ≡ some b
    → get_pty_baton id (modify f id handles) ≡ some (f b)
unfolding modify get_pty_baton
get_pty_baton-modify f id [] b k h = cc
get_pty_baton-modify f id (c ∷ handles) b k h =
    ground (arith, k c, get_pty_baton-modify f id handles b k)

-- A count below those of some handles is none of theirs.
below-apart :
    (m low high : ℕ) (id : ℤ) (handles : List Baton)
    → id ≡ signed32 m
    → m ≤ low
    → high < 2 ^ 32
    → Rising low high handles
    → All (λ b. (id ==ℤ b.id) ≡ false) handles
below-apart m low high id [] e le lt r = tt
below-apart m low high id (b ∷ handles) e le lt (n, number, above, top, rest) = (
  rw (e, number) (signed32-inj m n (omega arith) (omega arith) (omega arith)),
  below-apart m n high id handles e (omega arith) lt rest,
)

found_behind :
    (c : Baton) (handles others : List Baton)
    → All (λ b. (c.id ==ℤ b.id) ≡ false) others
    → All (λ b. get_pty_baton b.id handles ≡ some b) others
    → All (λ b. get_pty_baton b.id (c ∷ handles) ≡ some b) others
unfolding get_pty_baton
found_behind c handles [] a f = tt
found_behind c handles (b ∷ others) a f =
    (rw (a.0, get_pty_baton) f.0, found_behind c handles others a.1 f.1)

-- Every handle is found by its id.
pub Rising-found :
    (low high : ℕ) (handles : List Baton)
    → high < 2 ^ 32
    → Rising low high handles
    → All (λ b. get_pty_baton b.id handles ≡ some b) handles
unfolding get_pty_baton
Rising-found low high [] lt r = tt
Rising-found low high (b ∷ handles) lt (n, number, above, top, rest) = (
  rw ((==ℤ_iff b.id b.id).1 refl, get_pty_baton) refl,
  found_behind b handles handles (below-apart n n high b.id handles number (omega arith) lt rest)
      (Rising-found n high handles lt rest),
)
