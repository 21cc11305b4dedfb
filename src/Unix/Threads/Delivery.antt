-- ===== src/Unix/Threads/Delivery.antt =====
-- What `pty_pipesocket_fn` (c_src/unix/pty.cpp) reads and sends, and when it closes the terminal.
use ex_pty.Prelude.{
  ℕ, ◌≡◌, refl, Bool, true, false, Option, none, some, List, [], ◌∷◌, ◌++◌, Bytes, arith, ◌∙◌, sym,
  ap, pos, ℤ, append_assoc, append-nil,
}
use ex_pty.Unix.Sys.{Baton}
use ex_pty.Unix.Threads.Defs.{
  Event, Reader, Child, Label, Wait, moved, reader_step, waiter_step, loop_step, step,
}
use ex_pty.Unix.Threads.Runs.{started, Run}

-- The data messages, the newest first.
abbrev pub delivered : List Event → List Bytes
delivered [] = []
delivered (Event.data_sent bytes ∷ h) = bytes ∷ delivered h
delivered (_ ∷ h) = delivered h

-- What the reads of a run gave, the newest first.
abbrev pub received : List Label → List Bytes
received [] = []
received (Label.reads (some (b ∷ bytes)) ∷ ls) = (b ∷ bytes) ∷ received ls
received (_ ∷ ls) = received ls

-- Each binary of the run was allocated, and no `read` has failed.
abbrev pub HasBinaries : List Label → Type 0
HasBinaries [] = Unit {0}
HasBinaries (Label.allocates false ∷ ls) = ⊥
HasBinaries (_ ∷ ls) = HasBinaries ls

-- What is read and not yet sent.
abbrev pub pending : Reader → List Bytes
pending (Reader.allocating (some bytes)) = bytes ∷ []
pending (Reader.sending bytes) = bytes ∷ []
pending _ = []

abbrev given : Child → List Bytes
given c = pending c.reader ++ delivered c.trace

abbrev adds : Label → List Bytes
adds (Label.reads (some (b ∷ bytes))) = (b ∷ bytes) ∷ []
adds _ = []

step-given :
    (l : Label) (c c' : Child)
    → HasBinaries (l ∷ [])
    → step l c ≡ moved c'
    → given c' ≡ adds l ++ given c
unfolding step reader_step waiter_step loop_step
step-given l c c' ok h = ground arith

received-adds : (l : Label) (ls : List Label) → adds l ++ received ls ≡ received (l ∷ ls)
received-adds l ls = ground arith

HasBinaries-first :
    (l : Label) (ls : List Label) → HasBinaries (l ∷ ls) → HasBinaries (l ∷ []) × HasBinaries ls
HasBinaries-first l ls h = ground arith

Run-given :
    {ls : List Label} {c c' : Child}
    → Run ls c c'
    → HasBinaries ls
    → given c' ≡ received ls ++ given c
Run-given (Run.stay) ok = refl
Run-given (Run.go {labels} {c} {c'} {c''} l r s) ok =
    let (first, rest) = HasBinaries-first l labels ok in
    step-given l c' c'' first s
    ∙ ap (◌++◌ (adds l)) (Run-given r rest)
    ∙ sym (append_assoc (adds l) (received labels) (given c))
    ∙ ap (λ xs. xs ++ given c) (received-adds l labels)

-- In every run of the threads of which each binary was allocated, what was read from the terminal has
-- been sent, in order and each part once, but for the last part, which may be about to be sent.
pub Run-delivers :
    (fd p pid : ℕ) {ls : List Label} {c : Child}
    → Run ls (started fd p pid) c
    → HasBinaries ls
    → pending c.reader ++ delivered c.trace ≡ received ls
Run-delivers fd p pid {ls} r ok = Run-given r ok ∙ append-nil (received ls)

-- The descriptors that were closed.
abbrev pub closes : List Event → List ℕ
closes [] = []
closes (Event.closed fd ∷ h) = fd ∷ closes h
closes (_ ∷ h) = closes h

-- The processes that were signalled.
abbrev pub signals : List Event → List (ℕ × ℤ)
signals [] = []
signals (Event.killed pid n ∷ h) = (pid, n) ∷ signals h
signals (_ ∷ h) = signals h

-- The reading thread has seen the end, has closed the descriptor, has hung up.
abbrev pub has_ended : Reader → Bool
has_ended Reader.closing = true
has_ended Reader.hanging_up = true
has_ended Reader.leaving = true
has_ended Reader.done = true
has_ended _ = false

abbrev pub has_closed : Reader → Bool
has_closed Reader.closing = false
has_closed r = has_ended r

abbrev pub has_hung_up : Reader → Bool
has_hung_up Reader.closing = false
has_hung_up Reader.hanging_up = false
has_hung_up r = has_ended r

abbrev pub once {ℓ} : {A : Type ℓ} → Bool → A → List A
once true x = x ∷ []
once false x = []

-- The baton, while it is there, says whether the end was seen, and whose it is.
abbrev Agrees : Bool → ℕ → Option Baton → Type 0
Agrees ended pid none = Unit {0}
Agrees ended pid (some b) = (b.fd_closed ≡ ended) × (b.pid ≡ pid)

-- What the reading thread has done, by where it is.
abbrev Reading : ℕ → ℕ → Child → Type 0
Reading fd pid c =
    Agrees (has_ended c.reader) pid c.baton
    × (c.fd ≡ fd)
    × (closes c.trace ≡ once (has_closed c.reader) fd)
    × (signals c.trace ≡ once (has_hung_up c.reader) (pid, pos 1))

step-Reading :
    (fd pid : ℕ) (l : Label) (c c' : Child)
    → Reading fd pid c
    → step l c ≡ moved c'
    → Reading fd pid c'
unfolding step reader_step waiter_step loop_step
step-Reading fd pid Label.tests c c' i h = ground arith
step-Reading fd pid (Label.selects none) c c' i h = ground arith
step-Reading fd pid (Label.selects (some b)) c c' i h = ground arith
step-Reading fd pid (Label.reads none) c c' i h = ground arith
step-Reading fd pid (Label.reads (some [])) c c' i h = ground arith
step-Reading fd pid (Label.reads (some (x ∷ bytes))) c c' i h = ground arith
step-Reading fd pid (Label.allocates false) c c' i h = ground arith
step-Reading fd pid (Label.allocates true) c c' i h = ground arith
step-Reading fd pid Label.sends c c' i h = ground arith
step-Reading fd pid Label.closes c c' i h = ground arith
step-Reading fd pid Label.hangs_up c c' i h = ground arith
step-Reading fd pid Label.leaves c c' i h = ground arith
step-Reading fd pid (Label.waits Wait.interrupted) c c' i h = ground arith
step-Reading fd pid (Label.waits Wait.failed) c c' i h = ground arith
step-Reading fd pid (Label.waits (Wait.exited n)) c c' i h = ground arith
step-Reading fd pid (Label.waits (Wait.signalled n)) c c' i h = ground arith
step-Reading fd pid Label.reports c c' i h = ground arith
step-Reading fd pid Label.frees c c' i h = ground arith
step-Reading fd pid Label.notifies c c' i h = ground arith
step-Reading fd pid Label.erases c c' i h = ground arith
step-Reading fd pid Label.after_waitpid c c' i h = ground arith
step-Reading fd pid Label.after_pipesocket c c' i h = ground arith
step-Reading fd pid Label.after_close c c' i h = ground arith
step-Reading fd pid Label.after_close_pipesocket c c' i h = ground arith

Run-Reading :
    (fd pid : ℕ) {ls : List Label} {c c' : Child}
    → Run ls c c'
    → Reading fd pid c
    → Reading fd pid c'
Run-Reading fd pid Run.stay i = i
Run-Reading fd pid (Run.go {labels} {c} {c'} {c''} l r s) i =
    step-Reading fd pid l c' c'' (Run-Reading fd pid r i) s

-- In every run of the threads the descriptor of the terminal is closed once, by the reading thread,
-- when it has read the end, and the child is then hung up on, once; nothing else is closed or
-- signalled. The thread leaves its loop only behind both.
pub Run-closes :
    (fd p pid : ℕ) {ls : List Label} {c : Child}
    → Run ls (started fd p pid) c
    → (closes c.trace ≡ once (has_closed c.reader) fd)
      × (signals c.trace ≡ once (has_hung_up c.reader) (pid, pos 1))
Run-closes fd p pid r = let i = Run-Reading fd pid r ((refl, refl), refl, refl, refl) in (i.2, i.3)
