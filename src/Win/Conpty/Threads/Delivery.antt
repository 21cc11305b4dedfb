-- ===== src/Win/Conpty/Threads/Delivery.antt =====
-- What `read_data` (c_src/win/conpty.cc) reads and sends.
use ex_pty.Prelude.{
  ℕ, ◌≡◌, refl, ◌∙◌, sym, ap, false, List, [], ◌∷◌, ◌++◌, Bytes, arith, append_assoc, append-nil,
}
use ex_pty.Win.Conpty.Threads.Defs.{
  Event, Reader, Shell, Label, moved, writer_step, reader_step, caller_step, exit_step, step,
  started, Run,
}

-- The data messages, the newest first.
abbrev pub delivered : List Event → List Bytes
delivered [] = []
delivered (Event.data_sent bytes ∷ h) = bytes ∷ delivered h
delivered (_ ∷ h) = delivered h

-- What the reads of a run gave, the newest first.
abbrev pub received : List Label → List Bytes
received [] = []
received (Label.reads (b ∷ bytes) ∷ ls) = (b ∷ bytes) ∷ received ls
received (_ ∷ ls) = received ls

-- Each binary of the run was allocated.
abbrev pub HasBinaries : List Label → Type 0
HasBinaries [] = Unit {0}
HasBinaries (Label.allocates false ∷ ls) = ⊥
HasBinaries (_ ∷ ls) = HasBinaries ls

-- What is read and not yet sent.
abbrev pub pending : Reader → List Bytes
pending (Reader.allocating pipe bytes) = bytes ∷ []
pending (Reader.sending pipe bytes) = bytes ∷ []
pending _ = []

abbrev given : Shell → List Bytes
given c = pending c.reader ++ delivered c.trace

abbrev adds : Label → List Bytes
adds (Label.reads (b ∷ bytes)) = (b ∷ bytes) ∷ []
adds _ = []

step-given :
    (l : Label) (c c' : Shell)
    → HasBinaries (l ∷ [])
    → step l c ≡ moved c'
    → given c' ≡ adds l ++ given c
unfolding step writer_step reader_step caller_step exit_step
step-given l c c' ok h = ground arith

received-adds : (l : Label) (ls : List Label) → adds l ++ received ls ≡ received (l ∷ ls)
received-adds l ls = ground arith

HasBinaries-first :
    (l : Label) (ls : List Label) → HasBinaries (l ∷ ls) → HasBinaries (l ∷ []) × HasBinaries ls
HasBinaries-first l ls h = ground arith

Run-given :
    {ls : List Label} {c c' : Shell}
    → Run ls c c'
    → HasBinaries ls
    → given c' ≡ received ls ++ given c
Run-given (Run.stay) ok = refl
Run-given (Run.go {labels} {c} {c'} {c''} l r s) ok =
    let (first, rest) = HasBinaries-first l labels ok in
    step-given l c' c'' first s
    ∙ ap (◌++◌ (adds l)) (Run-given r rest)
    ∙ sym (append_assoc (adds l) (received labels) (given c))
    ∙ ap (λ xs. xs ++ given c) (received-adds l labels)

-- In every run at a handle of which each binary was allocated, what was read from the console has been
-- sent, in order and each part once, but for the last part, which may be about to be sent.
pub conpty_Run-delivers :
    (p : ℕ) {ls : List Label} {c : Shell}
    → Run ls (started p) c
    → HasBinaries ls
    → pending c.reader ++ delivered c.trace ≡ received ls
conpty_Run-delivers p {ls} r ok = Run-given r ok ∙ append-nil (received ls)
