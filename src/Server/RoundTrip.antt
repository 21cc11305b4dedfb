-- ===== src/Server/RoundTrip.antt =====
-- The command lines of lib/expty.ex are read back as the arguments that they were made of.
use ex_pty.Prelude.{
  ℕ, ◌+◌, ◌*◌, ◌≡◌, refl, ap, ◌∙◌, sym, true, false, ◌&&◌, ◌||◌, List, [], ◌∷◌, ◌++◌, ltb,
  if◌then◌else◌, arith, All, Bool-cases, inl, inr, append_assoc, append-nil,
}
use ex_pty.Server.CommandLine.{
  Text, backslash, quote, repeat_text, is_empty, starts_with_quote, ends_with_quote, has_blank,
  needs_quotes, close_arg, append_arg, args_to_command_line_impl, args_to_command_line,
}
use ex_pty.Server.Reader.{fresh, reading, read_char, arguments}
use ex_pty.Server.Quoting.{
  waiting, waiting-ap, body, pending, escape-body, arguments-run, arguments-repeat_text,
  read_quote-even, arguments-body, taken_all, started_by, taken_all-pending, started_by-pending,
}

-- An argument with a blank that stands between quotes already is not quoted again.
abbrev pub IsQuotable : Text → Type 0
IsQuotable arg = (has_blank arg && (starts_with_quote arg && ends_with_quote arg)) ≡ false

-- What an argument adds to the command line.
abbrev text_of : Text → Text
text_of arg =
    if needs_quotes arg
    then quote ∷ (body arg 0 ++ (repeat_text backslash (pending arg 0 * 2) ++ quote ∷ []))
    else body arg 0 ++ repeat_text backslash (pending arg 0)

append_arg-text_of : (arg result : Text) → append_arg arg result ≡ result ++ text_of arg
unfolding append_arg close_arg
append_arg-text_of arg result = elim (Bool-cases (needs_quotes arg)) [
  | inl quotes ↦
      rw (quotes, text_of, append_arg)
        (ap (close_arg true) (escape-body arg 0 (result ++ quote ∷ []))
          ∙ append_assoc (result ++ quote ∷ []) (body arg 0) _
          ∙ append_assoc result (quote ∷ []) _)
  | inr plain ↦
      rw (plain, text_of, append_arg)
        (ap (close_arg false) (escape-body arg 0 result) ∙ append_assoc result (body arg 0) _)
]

-- The arguments behind the first.
abbrev joined : List Text → Text
joined [] = []
joined (arg ∷ args) = 32 ∷ (text_of arg ++ joined args)

impl-joined :
    (args : List Text) (index : ℕ) (result : Text)
    → ltb 0 index ≡ true
    → args_to_command_line_impl args index result ≡ result ++ joined args
unfolding args_to_command_line_impl
impl-joined [] index result h = sym (append-nil result)
impl-joined (arg ∷ args) index result h = rw h (
    impl-joined args (index + 1) (append_arg arg (result ++ 32 ∷ [])) (ground arith)
    ∙ ap (λ r. r ++ joined args) (append_arg-text_of arg (result ++ 32 ∷ []))
    ∙ append_assoc (result ++ 32 ∷ []) (text_of arg) (joined args)
    ∙ append_assoc result (32 ∷ []) (text_of arg ++ joined args))

-- Behind the text of an argument, the argument is what is being read.
abbrev Read : Text → Text → Type 0
Read arg tail =
    (k : ℕ) × (cur : Text) × (arguments (text_of arg ++ tail) fresh
      ≡ arguments tail (waiting false k cur true))
    × (cur ++ repeat_text backslash k ≡ arg)

quoted-Read : (arg tail : Text) → needs_quotes arg ≡ true → Read arg tail
unfolding repeat_text
quoted-Read arg tail quotes =
    let p = pending arg 0 in
    let cur = taken_all arg 0 [] in
    let closing : Text = repeat_text backslash (p * 2) ++ quote ∷ [] in
    (
      0,
      cur ++ repeat_text backslash p,
      rw (quotes, text_of)
          (read_quote-even false 0 [] false ((body arg 0 ++ closing) ++ tail)
            ∙ ap (λ text. arguments text (reading true [])) (append_assoc (body arg 0) closing tail)
            ∙ arguments-body arg 0 true [] true (closing ++ tail) (ground arith)
            ∙ arguments-run quote (p * 2) true cur (started_by arg true) tail
            ∙ read_quote-even true p cur (started_by arg true || ltb 0 (p * 2)) tail),
      append-nil (cur ++ repeat_text backslash p) ∙ taken_all-pending arg 0 [],
    )

plain-Read : (arg tail : Text) → IsQuotable arg → needs_quotes arg ≡ false → Read arg tail
unfolding repeat_text needs_quotes
plain-Read arg tail h plain =
    let p = pending arg 0 in
    let cur = taken_all arg 0 [] in
    let no_blank : has_blank arg ≡ false = ground arith in
    let filled : is_empty arg ≡ false = ground arith in
    (
      p,
      cur,
      rw (plain, text_of)
          (ap (λ text. arguments text fresh)
              (append_assoc (body arg 0) (repeat_text backslash p) tail)
            ∙ arguments-body arg 0 false [] false (repeat_text backslash p ++ tail) (ground arith)
            ∙ arguments-repeat_text p false 0 cur (started_by arg false) tail
            ∙ ap (arguments tail) (
                waiting-ap false cur (omega arith)
                  (started_by-pending arg 0 false (ground arith)))),
      taken_all-pending arg 0 [],
    )

text_of-Read : (arg tail : Text) → IsQuotable arg → Read arg tail
text_of-Read arg tail h = elim (Bool-cases (needs_quotes arg)) [
  | inl quotes ↦ quoted-Read arg tail quotes
  | inr plain ↦ plain-Read arg tail h plain
]

arguments-joined :
    (arg : Text) (args : List Text)
    → All IsQuotable (arg ∷ args)
    → arguments (text_of arg ++ joined args) fresh ≡ arg ∷ args
unfolding arguments read_char
arguments-joined arg [] h = let (k, cur, e, f) = text_of-Read arg [] h.0 in e ∙ ap (λ t. t ∷ []) f
arguments-joined arg (arg' ∷ args) h =
    let (k, cur, e, f) = text_of-Read arg (joined (arg' ∷ args)) h.0 in
    e
    ∙ ap (λ t. t ∷ arguments (text_of arg' ++ joined args) fresh) f
    ∙ ap (◌∷◌ arg) (arguments-joined arg' args h.1)

-- The command line of a file and its arguments is read as the file and the arguments, each as it was and
-- none more, unless one of them has a blank and stands between quotes already.
pub arguments-args_to_command_line :
    (file : Text) (args : List Text)
    → All IsQuotable (file ∷ args)
    → arguments (args_to_command_line file args) fresh ≡ file ∷ args
unfolding args_to_command_line args_to_command_line_impl
arguments-args_to_command_line file args h =
    ap (λ text. arguments text fresh)
      (impl-joined args 1 (append_arg file []) refl
        ∙ ap (λ r. r ++ joined args) (append_arg-text_of file []))
    ∙ arguments-joined file args h
