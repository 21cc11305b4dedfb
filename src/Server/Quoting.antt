-- ===== src/Server/Quoting.antt =====
-- How a reader goes through an argument that `args_to_command_line` (lib/expty.ex) has escaped.
use ex_pty.Prelude.{
  ℕ, zero, suc, ◌+◌, ◌*◌, ◌/◌, ◌%◌, ◌≡◌, inl, inr, refl, ap, ◌∙◌, sym, Bool, true, false, not, ◌&&◌,
  ◌||◌, [], ◌∷◌, ◌++◌, ◌==◌, ltb, if◌then◌else◌, arith, Bool-cases, append_assoc, append-nil,
}
use ex_pty.Server.CommandLine.{
  Text, backslash, quote, is_blank, repeat_text, is_empty, has_blank, escape_char, escape,
}
use ex_pty.Server.Reader.{Reading, reading, read_char, arguments}

-- What the characters of an argument put into the result, and the backslashes that wait behind it.
abbrev pub next_count : ℕ → ℕ → ℕ
next_count c n = if c == backslash then n + 1 else 0

abbrev pub out : ℕ → ℕ → Text
out c n =
    if c == backslash
    then []
    else if c == quote
    then repeat_text backslash (n * 2 + 1) ++ quote ∷ []
    else repeat_text backslash n ++ c ∷ []

abbrev pub body : Text → ℕ → Text
body [] n = []
body (c ∷ arg) n = out c n ++ body arg (next_count c n)

abbrev pub pending : Text → ℕ → ℕ
pending [] n = n
pending (c ∷ arg) n = pending arg (next_count c n)

escape_char-out :
    (c n : ℕ) (result : Text) → escape_char c (n, result) ≡ (next_count c n, result ++ out c n)
unfolding escape_char
escape_char-out c n result = ground (arith, append-nil result)

pub escape-body :
    (arg : Text) (n : ℕ) (result : Text)
    → escape arg (n, result) ≡ (pending arg n, result ++ body arg n)
unfolding escape
escape-body [] n result = ap (λ r. (n, r)) (sym (append-nil result))
escape-body (c ∷ arg) n result =
    ap (escape arg) (escape_char-out c n result)
    ∙ escape-body arg (next_count c n) (result ++ out c n)
    ∙ ap (λ r. (pending arg (next_count c n), r))
        (append_assoc result (out c n) (body arg (next_count c n)))

-- Backslashes wait.
abbrev pub waiting : Bool → ℕ → Text → Bool → Reading
waiting quoted slashes current started = record {
  quoted = quoted;
  slashes = slashes;
  current = current;
  started = started;
}

pub waiting-ap :
    {m m' : ℕ} {st st' : Bool} (q : Bool) (cur : Text)
    → m ≡ m'
    → st ≡ st'
    → waiting q m cur st ≡ waiting q m' cur st'
waiting-ap {m} {m'} {st} {st'} q cur e f = ap (λ k. waiting q k cur st) e ∙ ap (waiting q m' cur) f

pub arguments-repeat_text :
    (k : ℕ) (q : Bool) (m : ℕ) (cur : Text) (st : Bool) (rest : Text)
    → arguments (repeat_text backslash k ++ rest) (waiting q m cur st)
      ≡ arguments rest (waiting q (m + k) cur (st || ltb 0 k))
unfolding arguments repeat_text read_char
arguments-repeat_text zero q m cur st rest =
    ap (arguments rest) (waiting-ap q cur (omega arith) (ground arith))
arguments-repeat_text (suc k) q m cur st rest =
    arguments-repeat_text k q (suc m) cur true rest
    ∙ ap (arguments rest) (waiting-ap q cur (omega arith) (ground arith))

pub arguments-run :
    (x k : ℕ) (q : Bool) (cur : Text) (st : Bool) (rest : Text)
    → arguments ((repeat_text backslash k ++ x ∷ []) ++ rest) (waiting q 0 cur st)
      ≡ arguments (x ∷ rest) (waiting q k cur (st || ltb 0 k))
arguments-run x k q cur st rest =
    ap (λ text. arguments text (waiting q 0 cur st))
      (append_assoc (repeat_text backslash k) (x ∷ []) rest)
    ∙ arguments-repeat_text k q 0 cur st (x ∷ rest)
    ∙ ap (arguments (x ∷ rest)) (waiting-ap q cur (omega arith) refl)

-- Between quotes, or outside for what is no blank.
read_char-other :
    (c : ℕ) (q : Bool) (n : ℕ) (cur : Text) (st : Bool) (rest : Text)
    → (c == backslash) ≡ false
    → (c == quote) ≡ false
    → (is_blank c && not q) ≡ false
    → arguments (c ∷ rest) (waiting q n cur st)
      ≡ arguments rest (reading q (cur ++ (repeat_text backslash n ++ c ∷ [])))
unfolding arguments read_char
read_char-other c q n cur st rest b k h = rw (b, k, h, read_char, arguments) refl

read_quote-odd :
    (q : Bool) (n : ℕ) (cur : Text) (st : Bool) (rest : Text)
    → arguments (quote ∷ rest) (waiting q (n * 2 + 1) cur st)
      ≡ arguments rest (reading q (cur ++ (repeat_text backslash n ++ quote ∷ [])))
unfolding arguments read_char
read_quote-odd q n cur st rest =
    let odd : ((n * 2 + 1) % 2 == 1) ≡ true = ground arith in
    let half : (n * 2 + 1) / 2 ≡ n = omega arith in rw (odd, half) refl

pub read_quote-even :
    (q : Bool) (n : ℕ) (cur : Text) (st : Bool) (rest : Text)
    → arguments (quote ∷ rest) (waiting q (n * 2) cur st)
      ≡ arguments rest (reading (not q) (cur ++ repeat_text backslash n))
unfolding arguments read_char
read_quote-even q n cur st rest =
    let even : ((n * 2) % 2 == 1) ≡ false = ground arith in
    let half : (n * 2) / 2 ≡ n = omega arith in rw (even, half) refl

-- What is read of a character, and whether it has started an argument.
abbrev taken : ℕ → ℕ → Text → Text
taken c n cur = if c == backslash then cur else cur ++ (repeat_text backslash n ++ c ∷ [])

abbrev starts : ℕ → Bool → Bool
starts c st = if c == backslash then st else true

arguments-out :
    (c n : ℕ) (q : Bool) (cur : Text) (st : Bool) (rest : Text)
    → (is_blank c && not q) ≡ false
    → arguments (out c n ++ rest) (waiting q 0 cur st)
      ≡ arguments rest (waiting q 0 (taken c n cur) (starts c st))
arguments-out c n q cur st rest h = elim (Bool-cases (c == backslash)) [
  | inl slash ↦ rw (slash, out, taken, starts) refl
  | inr other ↦ elim (Bool-cases (c == quote)) [
    | inl is_quote ↦
        let e : c ≡ quote = ground arith in
        rw e (
          arguments-run quote (n * 2 + 1) q cur st rest
          ∙ read_quote-odd q n cur (st || ltb 0 (n * 2 + 1)) rest)
    | inr plain ↦
        rw (other, plain, out, taken, starts)
          (arguments-run c n q cur st rest
            ∙ read_char-other c q n cur (st || ltb 0 n) rest other plain h)
  ]
]

abbrev pub taken_all : Text → ℕ → Text → Text
taken_all [] n cur = cur
taken_all (c ∷ arg) n cur = taken_all arg (next_count c n) (taken c n cur)

abbrev pub started_by : Text → Bool → Bool
started_by [] st = st
started_by (c ∷ arg) st = started_by arg (starts c st)

pub arguments-body :
    (arg : Text) (n : ℕ) (q : Bool) (cur : Text) (st : Bool) (rest : Text)
    → (has_blank arg && not q) ≡ false
    → arguments (body arg n ++ rest) (waiting q 0 cur st)
      ≡ arguments rest (waiting q 0 (taken_all arg n cur) (started_by arg st))
arguments-body [] n q cur st rest h = refl
arguments-body (c ∷ arg) n q cur st rest h =
    ap (λ text. arguments text (waiting q 0 cur st))
      (append_assoc (out c n) (body arg (next_count c n)) rest)
    ∙ arguments-out c n q cur st (body arg (next_count c n) ++ rest) (ground arith)
    ∙ arguments-body arg (next_count c n) q (taken c n cur) (starts c st) rest (ground arith)

repeat_text-last : (x n : ℕ) → repeat_text x (suc n) ≡ repeat_text x n ++ x ∷ []
unfolding repeat_text
repeat_text-last x zero = refl
repeat_text-last x (suc n) = ap (◌∷◌ x) (repeat_text-last x n)

-- Nothing is lost of a character.
taken-next_count :
    (c n : ℕ) (cur arg : Text)
    → taken c n cur ++ (repeat_text backslash (next_count c n) ++ arg)
      ≡ cur ++ (repeat_text backslash n ++ c ∷ arg)
unfolding repeat_text
taken-next_count c n cur arg = elim (Bool-cases (c == backslash)) [
  | inl slash ↦
      let e : c ≡ backslash = ground arith in
      let step : n + 1 ≡ suc n = omega arith in
      rw e (
        ap (◌++◌ cur) (
          ap (λ k. repeat_text backslash k ++ arg) step
          ∙ ap (λ xs. xs ++ arg) (repeat_text-last backslash n)
          ∙ append_assoc (repeat_text backslash n) (backslash ∷ []) arg))
  | inr other ↦
      rw (other, taken, next_count)
        (append_assoc cur (repeat_text backslash n ++ c ∷ []) arg
          ∙ ap (◌++◌ cur) (append_assoc (repeat_text backslash n) (c ∷ []) arg))
]

pub taken_all-pending :
    (arg : Text) (n : ℕ) (cur : Text)
    → taken_all arg n cur ++ repeat_text backslash (pending arg n)
      ≡ cur ++ (repeat_text backslash n ++ arg)
taken_all-pending [] n cur = ap (◌++◌ cur) (sym (append-nil (repeat_text backslash n)))
taken_all-pending (c ∷ arg) n cur =
    taken_all-pending arg (next_count c n) (taken c n cur) ∙ taken-next_count c n cur arg

-- An argument that is not empty starts, or leaves backslashes that will.
pub started_by-pending :
    (arg : Text) (n : ℕ) (st : Bool)
    → (st || (ltb 0 n || not (is_empty arg))) ≡ true
    → (started_by arg st || ltb 0 (pending arg n)) ≡ true
started_by-pending [] n st h = ground arith
started_by-pending (c ∷ arg) n st h =
    started_by-pending arg (next_count c n) (starts c st) (ground arith)
