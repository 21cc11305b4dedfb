-- ===== src/Win/Conpty/Writes.antt =====
-- `expty_write` of c_src/win/conpty.cc: its replies, and the mutex that it leaves.
use ex_pty.Prelude.{
  ℕ, ◌≤◌, ◌≡◌, ◌⊎◌, inl, inr, refl, ap, ◌∙◌, true, false, Option, none, some, [], ◌∷◌, ◌++◌, Bytes,
  ℤ, arith, length, take, take-take, length-take, ◌==◌, if◌then◌else◌,
}
use ex_pty.Enif.{Enif}
use ex_pty.Nif.Scalars.{get_int}
use ex_pty.Win.Conpty.State.{Event, History, Api, Baton, State, get_pty_baton, modify}
use ex_pty.Win.Conpty.Step.{returned, blocked}
use ex_pty.Win.Conpty.Numbered.{get_pty_baton-modify}
use ex_pty.Win.Conpty.Handlers.{dword, write, write_with, expty_write, given, reply, locking}

-- `WriteFile` writes at most as many bytes as it was given.
abbrev pub WritesWithin : Api → Type 0
WritesWithin a =
    (h : History) (pipe : ℕ) (bytes : Bytes) (n : ℕ)
    → a.write_file h pipe bytes ≡ some n
    → n ≤ length bytes

-- The bytes that went into a pipe.
abbrev pub put : ℕ → History → Bytes
put pipe [] = []
put pipe (Event.write_file other bytes (some n) ∷ h) =
    if other == pipe then put pipe h ++ take n bytes else put pipe h
put pipe (_ ∷ h) = put pipe h

-- A handle whose writing end is open, and of which no one holds the mutex.
pub record IsReady (s : State) (id : ℤ) (b : Baton) (pipe : ℕ) : Type 0 where
  pub found : get_pty_baton id s.handles ≡ some b
  pub ready : b.write_ready ≡ true
  pub free : b.locked ≡ false
  pub real_in : b.real_in ≡ some pipe

-- What a call at a ready handle leaves: the pipe has taken n bytes of the text and the mutex is free, or
-- the writing has failed, nothing was taken, and the mutex stays locked.
abbrev pub Told : (e : Enif) → ℕ → Bytes → ℤ → State → e.Term → State → Type 0
Told e pipe text id s t s' =
    (b' : Baton) × (get_pty_baton id s'.handles ≡ some b')
    × (b'.write_ready ≡ true)
    × (((n : ℕ) × (put pipe s'.trace ≡ put pipe s.trace ++ take n text)
          × (b'.locked ≡ false)
          × (t ≡ reply e text n))
        ⊎ ((put pipe s'.trace ≡ put pipe s.trace) × (b'.locked ≡ true) × (t ≡ reply e text 0)))

module _ (e : Enif) (a : Api) where
  -- The state behind a write, with the reply of Windows.
  after : State → ℤ → ℕ → Bytes → Option ℕ → State
  after s id pipe bytes none = record s {
    trace = Event.write_file pipe bytes none ∷ Event.mutex_lock id ∷ s.trace;
    handles = modify (locking true) id s.handles;
  }
  after s id pipe bytes (some n) = record s {
    trace =
        Event.mutex_unlock id
        ∷ Event.write_file pipe bytes (some n)
        ∷ Event.mutex_lock id
        ∷ s.trace;
    handles = modify (locking false) id (modify (locking true) id s.handles);
  }

  written : Option ℕ → ℕ
  written none = 0
  written (some n) = n

  expty_write-after :
      (argv : ℕ → e.Term) (s : State) (id : ℤ) (b : Baton) (pipe : ℕ) (text : Bytes) (r : Option ℕ)
      → get_int e (argv 0) ≡ some id
      → given e (argv 1) ≡ some text
      → IsReady s id b pipe
      → a.write_file (Event.mutex_lock id ∷ s.trace) pipe (take (dword (length text)) text) ≡ r
      → expty_write e a argv s
        ≡ returned (reply e text (written r)) (after s id pipe (take (dword (length text)) text) r)
  unfolding expty_write write_with write after written
  expty_write-after argv s id b pipe text none i g w q = ground arith
  expty_write-after argv s id b pipe text (some n) i g w q = ground arith

  put-after :
      (s : State) (id : ℤ) (pipe : ℕ) (bytes : Bytes) (n : ℕ)
      → put pipe (after s id pipe bytes (some n)).trace ≡ put pipe s.trace ++ take n bytes
  unfolding after
  put-after s id pipe bytes n = ground arith

  after-Told :
      (s : State) (id : ℤ) (b : Baton) (pipe : ℕ) (text : Bytes) (r : Option ℕ)
      → WritesWithin a
      → IsReady s id b pipe
      → a.write_file (Event.mutex_lock id ∷ s.trace) pipe (take (dword (length text)) text) ≡ r
      → Told e pipe text id s
          (reply e text (written r))
          (after s id pipe (take (dword (length text)) text) r)
  unfolding after written
  after-Told s id b pipe text none within w q = (
    locking true b,
    get_pty_baton-modify (locking true) id s.handles b (λ c. refl) w.found,
    w.ready,
    inr (refl, refl, refl),
  )
  after-Told s id b pipe text (some n) within w q =
      let le = within (Event.mutex_lock id ∷ s.trace) pipe (take (dword (length text)) text) n q in
      (
        locking false (locking true b),
        get_pty_baton-modify (locking false) id (modify (locking true) id s.handles)
            (locking true b) (λ c. refl)
            (get_pty_baton-modify (locking true) id s.handles b (λ c. refl) w.found),
        w.ready,
        inl (
          n,
          put-after s id pipe (take (dword (length text)) text) n
              ∙ ap (◌++◌ (put pipe s.trace)) (
                  take-take n (dword (length text)) text
                    (omega (arith, le, length-take (dword (length text)) text))),
          refl,
          refl,
        ),
      )

  -- A write at a ready handle returns. Either the pipe has taken n bytes, which are the first n of the
  -- text, the mutex is free again, and the reply is that for n bytes: `ok` for all of them, and
  -- `{partial, n}` else. Or Windows has failed, nothing was taken, the reply is that for no bytes, and
  -- the mutex stays locked.
  pub expty_write-Told :
      (argv : ℕ → e.Term) (s : State) (id : ℤ) (b : Baton) (pipe : ℕ) (text : Bytes)
      → WritesWithin a
      → get_int e (argv 0) ≡ some id
      → given e (argv 1) ≡ some text
      → IsReady s id b pipe
      → (t : e.Term) × (s' : State) × (expty_write e a argv s ≡ returned t s')
        × Told e pipe text id s t s'
  expty_write-Told argv s id b pipe text within i g w =
      let r = a.write_file (Event.mutex_lock id ∷ s.trace) pipe (take (dword (length text)) text) in
      (
        reply e text (written r),
        after s id pipe (take (dword (length text)) text) r,
        expty_write-after argv s id b pipe text r i g w refl,
        after-Told s id b pipe text r within w refl,
      )

  locked-blocked :
      (argv : ℕ → e.Term) (s : State) (id : ℤ) (b : Baton) (text : Bytes)
      → get_int e (argv 0) ≡ some id
      → given e (argv 1) ≡ some text
      → get_pty_baton id s.handles ≡ some b
      → b.write_ready ≡ true
      → b.locked ≡ true
      → expty_write e a argv s ≡ blocked
  unfolding expty_write write_with write
  locked-blocked argv s id b text i g f r l = ground arith

  -- Behind a write that Windows has failed, the next write at the same handle waits for the mutex for
  -- ever, whatever its text.
  pub expty_write-blocked :
      (argv argv' : ℕ → e.Term) (s : State) (id : ℤ) (b : Baton) (pipe : ℕ) (text text' : Bytes)
      → get_int e (argv 0) ≡ some id
      → given e (argv 1) ≡ some text
      → IsReady s id b pipe
      → a.write_file (Event.mutex_lock id ∷ s.trace) pipe (take (dword (length text)) text) ≡ none
      → get_int e (argv' 0) ≡ some id
      → given e (argv' 1) ≡ some text'
      → (t : e.Term) × (s' : State) × (expty_write e a argv s ≡ returned t s')
        × (expty_write e a argv' s' ≡ blocked)
  unfolding after
  expty_write-blocked argv argv' s id b pipe text text' i g w q i' g' = (
    reply e text (written none),
    after s id pipe (take (dword (length text)) text) none,
    expty_write-after argv s id b pipe text none i g w q,
    locked-blocked argv' (after s id pipe (take (dword (length text)) text) none) id
        (locking true b) text' i' g'
        (get_pty_baton-modify (locking true) id s.handles b (λ c. refl) w.found) w.ready refl,
  )
