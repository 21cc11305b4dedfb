-- ===== src/Win/Conpty/Step.antt =====
-- Handlers of c_src/win/conpty.cc as chains of statements, each of which may return.
use ex_pty.Prelude.{Option, none, some, Bool, true, false, ◌∷◌}
use ex_pty.Win.Conpty.State.{Event, History, State}

-- A call returns, runs into undefined behaviour, or waits for a mutex that nobody will unlock.
pub data Outcome (T : Type 0) : Type 0 where
  returned : T → State → Outcome T
  undefined : Outcome T
  blocked : Outcome T

-- A statement goes on with a value, or ends the call.
pub data Jump {ℓ} (T : Type 0) (A : Type ℓ) : Type ℓ where
  next : A → State → Jump T A
  ends : Outcome T → Jump T A

abbrev pub Do {ℓ} : Type 0 → Type ℓ → Type ℓ
Do T A = State → Jump T A

infixl 5 ◌>>=◌ ◌>>◌
abbrev pub ◌>>=◌ {ℓ κ} : {T : Type 0} {A : Type ℓ} {B : Type κ} → Do T A → (A → Do T B) → Do T B
◌>>=◌ m f s = elim (m s) [ next a s' ↦ f a s' | ends r ↦ ends r ]

abbrev pub ◌>>◌ {ℓ} : {T : Type 0} {B : Type ℓ} → Do T (Unit {0}) → Do T B → Do T B
m >> k = m >>= λ _. k

abbrev pub give {ℓ} : {T : Type 0} {A : Type ℓ} → A → Do T A
give a s = next a s

abbrev pub emit : {T : Type 0} → Event → Do T (Unit {0})
emit ev s = next tt (record s { trace = ev ∷ s.trace })

-- What Windows replies, from the history.
abbrev pub ask : {T A : Type 0} → (History → A) → Do T A
ask f s = next (f s.trace) s

-- `return t`
abbrev pub return : {T A : Type 0} → T → Do T A
return t s = ends (Outcome.returned t s)

abbrev pub or_return : {T A : Type 0} → Option A → T → Do T A
or_return none t s = ends (Outcome.returned t s)
or_return (some a) t s = next a s

abbrev pub unless : {T : Type 0} → Bool → T → Do T (Unit {0})
unless true t s = next tt s
unless false t s = ends (Outcome.returned t s)

abbrev pub outcome : {T : Type 0} → Jump T T → Outcome T
outcome (next t s) = Outcome.returned t s
outcome (ends r) = r
