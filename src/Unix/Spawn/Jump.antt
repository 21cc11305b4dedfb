-- ===== src/Unix/Spawn/Jump.antt =====
-- Statements of `expty_spawn` (c_src/unix/pty.cpp), each of which may jump to the label `done`.
use ex_pty.Prelude.{Option, none, some, ◌∷◌}
use ex_pty.Unix.Sys.{Event, Sys, History}

-- A statement goes on with a value, or jumps to the label `done` with the term to return.
pub data Jump {ℓ} (T : Type 0) (A : Type ℓ) : Type ℓ where
  next : A → Sys → Jump T A
  goto_done : T → Sys → Jump T A

abbrev pub Do {ℓ} : Type 0 → Type ℓ → Type ℓ
Do T A = Sys → Jump T A

infixl 5 ◌>>=◌ ◌>>◌
abbrev pub ◌>>=◌ {ℓ κ} : {T : Type 0} {A : Type ℓ} {B : Type κ} → Do T A → (A → Do T B) → Do T B
◌>>=◌ m f s = elim (m s) [ next a s' ↦ f a s' | goto_done t s' ↦ goto_done t s' ]

abbrev pub ◌>>◌ {ℓ} : {T : Type 0} {B : Type ℓ} → Do T (Unit {0}) → Do T B → Do T B
m >> k = m >>= λ _. k

abbrev pub give {ℓ} : {T : Type 0} {A : Type ℓ} → A → Do T A
give a s = next a s

abbrev pub emit : {T : Type 0} → Event → Do T (Unit {0})
emit ev s = next tt (record s { trace = ev ∷ s.trace })

-- A call that replies by a function of the history, and `goto done` if its reply is `none`.
abbrev pub ask : {T A : Type 0} → (History → A) → Do T A
ask f s = next (f s.trace) s

abbrev pub or_done : {T A : Type 0} → Option A → T → Do T A
or_done none t s = goto_done t s
or_done (some a) t s = next a s

-- `erl_ret` at the label, and the state there.
abbrev pub at_done : {T : Type 0} → Jump T T → T × Sys
at_done (next t s) = (t, s)
at_done (goto_done t s) = (t, s)
