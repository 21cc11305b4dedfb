-- ===== src/Server/Reader.antt =====
-- How a program takes its command line apart, by the documented convention of Windows: blanks end an
-- argument but between quotes, and backslashes count only before a quote, where each two are one and an
-- odd one escapes the quote. It is what lib/expty.ex quotes its arguments for.
use ex_pty.Prelude.{
  ℕ, suc, ◌/◌, ◌%◌, Bool, true, false, not, ◌&&◌, List, [], ◌∷◌, ◌++◌, ◌==◌, if◌then◌else◌,
}
use ex_pty.Server.CommandLine.{Text, backslash, quote, is_blank, repeat_text}

-- An argument that is being read, with the backslashes that wait.
pub record Reading : Type 0 where
  pub quoted : Bool
  pub slashes : ℕ
  pub current : Text
  pub started : Bool

abbrev pub fresh : Reading
fresh = record { quoted = false; slashes = 0; current = []; started = false }

abbrev pub reading : Bool → Text → Reading
reading quoted current = record { quoted = quoted; slashes = 0; current = current; started = true }

-- The argument, if there is one.
abbrev pub finished : Reading → List Text
finished s = if s.started then (s.current ++ repeat_text backslash s.slashes) ∷ [] else []

abbrev pub read_quote : Reading → Reading
read_quote s =
    if s.slashes % 2 == 1
    then reading s.quoted (s.current ++ (repeat_text backslash (s.slashes / 2) ++ quote ∷ []))
    else reading (not s.quoted) (s.current ++ repeat_text backslash (s.slashes / 2))

-- A character: what is being read behind it, and an argument that has ended.
unfoldable pub read_char : ℕ → Reading → Reading × List Text
read_char c s =
    if c == backslash
    then (record s { slashes = suc s.slashes; started = true }, [])
    else if c == quote
    then (read_quote s, [])
    else if is_blank c && not s.quoted
    then (fresh, finished s)
    else (reading s.quoted (s.current ++ (repeat_text backslash s.slashes ++ c ∷ [])), [])

unfoldable pub arguments : Text → Reading → List Text
unfolding read_char
arguments [] s = finished s
arguments (c ∷ text) s = let (s', ended) = read_char c s in ended ++ arguments text s'
