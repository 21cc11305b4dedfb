-- ===== src/Server/FlowControl.antt =====
-- What the server of lib/expty.ex hands on to the terminal and to the callbacks, over a run.
use ex_pty.Prelude.{
  ◌≡◌, refl, ◌∙◌, sym, Bool, false, none, some, List, [], ◌∷◌, ◌++◌, Bytes, arith, append_assoc,
  append-nil, Option-cases, Option, true, All, ℤ, inl, inr,
}
use ex_pty.Server.Calls.{
  Os, Callback, Callbacks, Event, History, State, Request, Message, Input, write_unix, handle_call,
  handle_info, handle, run,
}

-- The texts that the NIF was given to write, and what the callback for data was given, the oldest first.
abbrev pub written : History → List Bytes
written [] = []
written (Event.write target text ∷ h) = written h ++ text ∷ []
written (_ ∷ h) = written h

abbrev pub heard : History → List (Callback × Bytes)
heard [] = []
heard (Event.on_data callback text ∷ h) = heard h ++ (callback, text) ∷ []
heard (_ ∷ h) = heard h

-- What the callback for the exit was given.
abbrev pub told : History → List (Callback × ℤ × ℤ)
told [] = []
told (Event.on_exit callback code signal ∷ h) = told h ++ (callback, code, signal) ∷ []
told (_ ∷ h) = told h

-- The texts of the writes that come while flow control is off.
abbrev pub unheld : Bool → List Input → List Bytes
unheld flow [] = []
unheld false (Input.call (Request.write text) ∷ inputs) = text ∷ unheld false inputs
unheld flow (Input.call (Request.set_flow_control enable) ∷ inputs) = unheld enable inputs
unheld flow (_ ∷ inputs) = unheld flow inputs

-- The data that come while there is a callback, with the callback of the time.
abbrev pub listened : Option Callback → List Input → List (Callback × Bytes)
listened set [] = []
listened (some callback) (Input.info (Message.data_ text) ∷ inputs) =
    (callback, text) ∷ listened (some callback) inputs
listened set (Input.call (Request.update_on_data callback) ∷ inputs) =
    listened (some callback) inputs
listened set (_ ∷ inputs) = listened set inputs

-- The exits that come while there is a callback for them.
abbrev pub awaited : Option Callback → List Input → List (Callback × ℤ × ℤ)
awaited set [] = []
awaited (some callback) (Input.info (Message.exit code signal) ∷ inputs) =
    (callback, code, signal) ∷ awaited (some callback) inputs
awaited set (Input.call (Request.update_on_exit callback) ∷ inputs) = awaited (some callback) inputs
awaited set (_ ∷ inputs) = awaited set inputs

-- A message that the NIF sends on Unix.
abbrev pub IsOfUnix : Input → Type 0
IsOfUnix (Input.info (Message.exit_code code)) = ⊥
IsOfUnix _ = Unit

handle-written :
    (returns : Callbacks) (input : Input) (inputs : List Input) (s s' : State)
    → s.os_type ≡ Os.unix
    → handle returns input s ≡ some s'
    → (s'.os_type ≡ Os.unix)
      × (written s'.trace ++ unheld s'.handle_flow_control inputs
          ≡ written s.trace ++ unheld s.handle_flow_control (input ∷ inputs))
      × (heard s'.trace ++ listened s'.on_data inputs
          ≡ heard s.trace ++ listened s.on_data (input ∷ inputs))
      × (told s'.trace ++ awaited s'.on_exit inputs
          ≡ told s.trace ++ awaited s.on_exit (input ∷ inputs))
unfolding handle handle_call handle_info write_unix
handle-written returns (Input.call (Request.write text)) inputs s s' u h =
    ground (arith, append_assoc (written s.trace) (text ∷ []) (unheld false inputs))
handle-written returns (Input.call (Request.kill signal)) inputs s s' u h = ground arith
handle-written returns (Input.call (Request.update_on_data callback)) inputs s s' u h = ground arith
handle-written returns (Input.call (Request.update_on_exit callback)) inputs s s' u h = ground arith
handle-written returns (Input.call (Request.resize cols rows)) inputs s s' u h = ground arith
handle-written returns (Input.call Request.flow_control) inputs s s' u h = ground arith
handle-written returns (Input.call (Request.set_flow_control enable)) inputs s s' u h = ground arith
handle-written returns (Input.call Request.pause) inputs s s' u h = ground arith
handle-written returns (Input.call Request.resume) inputs s s' u h = ground arith
handle-written returns (Input.call (Request.set_echo echo)) inputs s s' u h = ground arith
handle-written returns (Input.info (Message.data_ text)) inputs s s' u h =
    elim (Option-cases s.on_data) [
      | inl none_ ↦ ground arith
      | inr (callback, set) ↦ ground (
        arith,
        append_assoc (heard s.trace) ((callback, text) ∷ []) (listened (some callback) inputs),
      )
    ]
handle-written returns (Input.info (Message.exit code signal)) inputs s s' u h =
    elim (Option-cases s.on_exit) [
      | inl none_ ↦ ground arith
      | inr (callback, set) ↦ ground (
        arith,
        append_assoc (told s.trace) ((callback, code, signal) ∷ [])
            (awaited (some callback) inputs),
      )
    ]
handle-written returns (Input.info (Message.exit_code code)) inputs s s' u h = absurd (ground arith)

-- On Unix every request and message has a clause.
handle-crash :
    (returns : Callbacks) (input : Input) (s : State)
    → ((ev : Event) → returns ev ≡ true)
    → IsOfUnix input
    → s.os_type ≡ Os.unix
    → handle returns input s ≡ none
    → ⊥
unfolding handle handle_call handle_info write_unix
handle-crash returns (Input.call (Request.write text)) s sound known u h = absurd (ground arith)
handle-crash returns (Input.call (Request.kill signal)) s sound known u h = absurd (ground arith)
handle-crash returns (Input.call (Request.update_on_data callback)) s sound known u h =
    absurd (ground arith)
handle-crash returns (Input.call (Request.update_on_exit callback)) s sound known u h =
    absurd (ground arith)
handle-crash returns (Input.call (Request.resize cols rows)) s sound known u h =
    absurd (ground arith)
handle-crash returns (Input.call Request.flow_control) s sound known u h = absurd (ground arith)
handle-crash returns (Input.call (Request.set_flow_control enable)) s sound known u h =
    absurd (ground arith)
handle-crash returns (Input.call Request.pause) s sound known u h = absurd (ground arith)
handle-crash returns (Input.call Request.resume) s sound known u h = absurd (ground arith)
handle-crash returns (Input.call (Request.set_echo echo)) s sound known u h = absurd (ground arith)
handle-crash returns (Input.info (Message.data_ text)) s sound known u h =
    elim (Option-cases s.on_data) [
      | inl none_ ↦ absurd (ground arith)
      | inr (callback, set) ↦ absurd (ground (arith, sound (Event.on_data callback text)))
    ]
handle-crash returns (Input.info (Message.exit code signal)) s sound known u h =
    elim (Option-cases s.on_exit) [
      | inl none_ ↦ absurd (ground arith)
      | inr (callback, set) ↦ absurd (ground (arith, sound (Event.on_exit callback code signal)))
    ]
handle-crash returns (Input.info (Message.exit_code code)) s sound known u h = absurd known

handle-returns :
    (returns : Callbacks) (input : Input) (s : State)
    → ((ev : Event) → returns ev ≡ true)
    → IsOfUnix input
    → s.os_type ≡ Os.unix
    → (s' : State) × (handle returns input s ≡ some s')
handle-returns returns input s sound known u = elim (Option-cases (handle returns input s)) [
  | inl crashed ↦ absurd (handle-crash returns input s sound known u crashed)
  | inr found ↦ found
]

-- On Unix, with callbacks that raise no exception, the server goes through any requests and messages
-- that the NIF sends there without an end. What it has given the NIF to
-- write is then what it had, and the texts of the writes that came while flow control was off, in order:
-- a write under flow control is dropped, whatever its text. What it has given the callbacks is what it
-- had, and the data and the exits that came while there was a callback for them, in order, each to the
-- callback of its time.
pub run-written :
    (returns : Callbacks) (inputs : List Input) (s : State)
    → ((ev : Event) → returns ev ≡ true)
    → All IsOfUnix inputs
    → s.os_type ≡ Os.unix
    → (s' : State) × (run returns inputs s ≡ some s')
      × (written s'.trace ≡ written s.trace ++ unheld s.handle_flow_control inputs)
      × (heard s'.trace ≡ heard s.trace ++ listened s.on_data inputs)
      × (told s'.trace ≡ told s.trace ++ awaited s.on_exit inputs)
unfolding run
run-written returns [] s sound known u = (
  s,
  refl,
  sym (append-nil (written s.trace)),
  sym (append-nil (heard s.trace)),
  sym (append-nil (told s.trace)),
)
run-written returns (input ∷ inputs) s sound known u =
    let (s1, e) = handle-returns returns input s sound known.0 u in
    let (u1, w1, h1, t1) = handle-written returns input inputs s s1 u e in
    let (s2, r, w2, h2, t2) = run-written returns inputs s1 sound known.1 u1 in
    (s2, rw (e, run) r, w2 ∙ w1, h2 ∙ h1, t2 ∙ t1)
