-- ===== src/Server/Terms.antt =====
-- The Erlang terms that lib/expty.ex tells apart, and what it asks of its host.
use ex_pty.Prelude.{ℕ, Bool, true, false, Option, none, some, List, [], ◌∷◌, ℤ, if◌then◌else◌}
use ex_pty.Server.CommandLine.{Text}

pub data Atom : Type 0 where
  nil_ false_ true_ : Atom
  named : ℕ → Atom

-- A list is `empty` or a `cell`, as in Erlang. A function is told by its arity and its identity; `opaque`
-- is a term that the server only hands on, such as the map of the environment.
pub data Term : Type 0 where
  atom : Atom → Term
  integer : ℤ → Term
  binary : Text → Term
  function : ℕ → ℕ → Term
  pid : ℕ → Term
  empty : Term
  cell : Term → Term → Term
  opaque : ℕ → Term

abbrev pub nil : Term
nil = Term.atom Atom.nil_

abbrev pub bool : Bool → Term
bool true = Term.atom Atom.true_
bool false = Term.atom Atom.false_

-- What `||` takes for false.
abbrev pub is_falsy : Term → Bool
is_falsy (Term.atom Atom.nil_) = true
is_falsy (Term.atom Atom.false_) = true
is_falsy t = false

-- `t || default`
abbrev pub or_else : Term → Term → Term
or_else t default = if is_falsy t then default else t

-- `is_boolean`, `is_binary` and `is_integer`, with the value.
abbrev pub is_boolean : Term → Option Bool
is_boolean (Term.atom Atom.true_) = some true
is_boolean (Term.atom Atom.false_) = some false
is_boolean t = none

abbrev pub is_binary : Term → Option Text
is_binary (Term.binary text) = some text
is_binary t = none

abbrev pub is_integer : Term → Option ℤ
is_integer (Term.integer n) = some n
is_integer t = none

-- The binaries of a proper list of binaries.
unfoldable pub binaries : Term → Option (List Text)
binaries Term.empty = some []
binaries (Term.cell (Term.binary text) tail) = elim (binaries tail) [
  | none ↦ none
  | some texts ↦ some (text ∷ texts)
]
binaries t = none

-- The functions that a callback module has.
pub data Exported : Type 0 where
  on_data on_exit : Exported
