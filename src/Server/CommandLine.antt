-- ===== src/Server/CommandLine.antt =====
-- `args_to_command_line` of lib/expty.ex. A text is the list of its characters, each a grapheme of its
-- own.
use ex_pty.Prelude.{
  ℕ, zero, suc, ◌+◌, ◌*◌, Bool, true, false, not, ◌&&◌, ◌||◌, List, [], ◌∷◌, ◌++◌, ◌==◌, ltb,
  if◌then◌else◌,
}

abbrev pub Text : Type 0
Text = List ℕ

-- A backslash, a quote, a space and a tab.
abbrev pub backslash : ℕ
backslash = 92

abbrev pub quote : ℕ
quote = 34

abbrev pub is_blank : ℕ → Bool
is_blank c = (c == 32) || (c == 9)

unfoldable pub repeat_text : ℕ → ℕ → Text
repeat_text text zero = []
repeat_text text (suc count) = text ∷ repeat_text text count

abbrev pub xor : Bool → Bool → Bool
xor a b = (a && not b) || (not a && b)

abbrev pub is_empty : Text → Bool
is_empty [] = true
is_empty (c ∷ arg) = false

-- `String.at(arg, 0) == "\""`
abbrev pub starts_with_quote : Text → Bool
starts_with_quote [] = false
starts_with_quote (c ∷ arg) = c == quote

abbrev pub ends_with_quote : Text → Bool
ends_with_quote [] = false
ends_with_quote (c ∷ []) = c == quote
ends_with_quote (c ∷ d ∷ arg) = ends_with_quote (d ∷ arg)

abbrev pub has_blank : Text → Bool
has_blank [] = false
has_blank (c ∷ arg) = is_blank c || has_blank arg

-- `quote?`
unfoldable pub needs_quotes : Text → Bool
needs_quotes arg =
    let lopsided = xor (not (starts_with_quote arg)) (not (ends_with_quote arg)) in
    let no_enclosing = not (starts_with_quote arg) && not (ends_with_quote arg) in
    is_empty arg || (has_blank arg && (not (is_empty arg) && (lopsided || no_enclosing)))

-- The function of `Enum.reduce`, on the number of backslashes that wait and the result.
unfoldable pub escape_char : ℕ → ℕ × Text → ℕ × Text
escape_char c (bs_count, result) =
    if c == backslash
    then (bs_count + 1, result)
    else if c == quote
    then (0, result ++ (repeat_text backslash (bs_count * 2 + 1) ++ quote ∷ []))
    else (0, result ++ (repeat_text backslash bs_count ++ c ∷ []))

unfoldable pub escape : Text → ℕ × Text → ℕ × Text
escape [] acc = acc
escape (c ∷ arg) acc = escape arg (escape_char c acc)

-- The backslashes that are left, and the quote.
unfoldable pub close_arg : Bool → ℕ × Text → Text
close_arg true (bs_count, result) = result ++ (repeat_text backslash (bs_count * 2) ++ quote ∷ [])
close_arg false (bs_count, result) = result ++ repeat_text backslash bs_count

unfoldable pub append_arg : Text → Text → Text
append_arg arg result =
    close_arg (needs_quotes arg)
      (escape arg (0, if needs_quotes arg then result ++ quote ∷ [] else result))

unfoldable pub args_to_command_line_impl : List Text → ℕ → Text → Text
args_to_command_line_impl [] index result = result
args_to_command_line_impl (arg ∷ argv) index result =
    args_to_command_line_impl argv (index + 1)
      (append_arg arg (if ltb 0 index then result ++ 32 ∷ [] else result))

unfoldable pub args_to_command_line : Text → List Text → Text
args_to_command_line file args = args_to_command_line_impl (file ∷ args) 0 []
