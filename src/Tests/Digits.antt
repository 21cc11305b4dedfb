-- ===== src/Tests/Digits.antt =====
-- Decimal numbers, printed and read back.
use ex_pty.Prelude.{
  ℕ, zero, suc, ◌+◌, ◌-◌, ◌*◌, ◌/◌, ◌%◌, ◌≤◌, ◌≡◌, refl, true, false, Option, none, some, [], ◌∷◌,
  Bytes, ◌==◌, codes, ℤ, pos, negsuc, arith, leb, ltb, ◌&&◌, if◌then◌else◌, NoNul, ap, ◌∙◌,
  Bool-cases, inl, inr,
}
use ex_pty.Unix.Spawn.Run.{Decimal}
use ex_pty.Unix.Helper.Start.{ReadsBack}

-- The digits of n, before `acc`.
unfoldable pub digits : ℕ → ℕ → Bytes → Bytes
digits zero n acc = (48 + n % 10) ∷ acc
digits (suc fuel) n acc = elim (ltb n 10) [
  | true ↦ (48 + n % 10) ∷ acc
  | false ↦ digits fuel (n / 10) ((48 + n % 10) ∷ acc)
]

-- The number that follows `n` in the digits; `none` at what is no digit.
unfoldable pub read : ℕ → Bytes → Option ℕ
read n [] = some n
read n (b ∷ bs) = elim (leb 48 b && leb b 57) [ true ↦ read (n * 10 + (b - 48)) bs | false ↦ none ]

read-digit : (n d : ℕ) (bs : Bytes) → read n ((48 + d % 10) ∷ bs) ≡ read (n * 10 + d % 10) bs
unfolding read
read-digit n d bs = ground arith

read-digits : (fuel n : ℕ) (acc : Bytes) → n ≤ fuel → read 0 (digits fuel n acc) ≡ read n acc
unfolding digits
read-digits zero n acc h = read-digit 0 n acc ∙ ap (λ (m : ℕ). read m acc) (omega arith)
read-digits (suc fuel) n acc h = elim (Bool-cases (ltb n 10)) [
  | inl small ↦ rw (small, digits) (read-digit 0 n acc ∙ ap (λ (m : ℕ). read m acc) (ground arith))
  | inr large ↦
      rw (large, digits)
        (read-digits fuel (n / 10) ((48 + n % 10) ∷ acc) (ground arith)
          ∙ read-digit (n / 10) n acc
          ∙ ap (λ (m : ℕ). read m acc) (omega arith))
]

digits-NoNul : (fuel n : ℕ) (acc : Bytes) → NoNul acc → NoNul (digits fuel n acc)
unfolding digits
digits-NoNul zero n acc h = (λ e. absurd (omega arith), h)
digits-NoNul (suc fuel) n acc h = elim (Bool-cases (ltb n 10)) [
  | inl small ↦ rw (small, digits) (λ e. absurd (omega arith), h)
  | inr large ↦
      rw (large, digits)
        (digits-NoNul fuel (n / 10) ((48 + n % 10) ∷ acc) (λ e. absurd (omega arith), h))
]

digits_head :
    (fuel n : ℕ) (acc : Bytes) → (b : ℕ) × (bs : Bytes) × (digits fuel n acc ≡ b ∷ bs) × (48 ≤ b)
unfolding digits
digits_head zero n acc = (_, _, refl, omega arith)
digits_head (suc fuel) n acc = elim (Bool-cases (ltb n 10)) [
  | inl small ↦ (48 + n % 10, acc, rw (small, digits) refl, omega arith)
  | inr large ↦
      let (b, bs, e, le) = digits_head fuel (n / 10) ((48 + n % 10) ∷ acc) in
      (b, bs, rw (large, digits) e, le)
]

abbrev minus : ℕ → ℤ
minus zero = pos 0
minus (suc n) = negsuc n

abbrev with_sign : (ℕ → ℤ) → Option ℕ → Option ℤ
with_sign f none = none
with_sign f (some n) = some (f n)

-- 45 is the sign.
unfoldable pub stoi : Bytes → Option ℤ
unfolding read
stoi [] = none
stoi (b ∷ bs) = if b == 45 then with_sign minus (read 0 bs) else with_sign pos (read 0 (b ∷ bs))

unfoldable pub to_string : ℤ → Bytes
unfolding digits
to_string (pos n) = digits n n []
to_string (negsuc n) = 45 ∷ digits (suc n) (suc n) []

abbrev pub decimal : Decimal
decimal = record { to_string = to_string; stoi = stoi }

read_back : (fuel n : ℕ) → n ≤ fuel → read 0 (digits fuel n []) ≡ some n
unfolding read
read_back fuel n h = read-digits fuel n [] h

printed : (n : ℤ) → NoNul (to_string n)
unfolding to_string
printed (pos n) = digits-NoNul n n [] tt
printed (negsuc n) = (λ e. absurd (omega arith), digits-NoNul (suc n) (suc n) [] tt)

back : (n : ℤ) → stoi (to_string n) ≡ some n
unfolding stoi to_string
back (pos n) =
    let (b, bs, e, le) = digits_head n n [] in ground (arith, read_back n n (omega arith))
back (negsuc n) = rw (read_back (suc n) (suc n) (omega arith)) refl

pub decimal-ReadsBack : ReadsBack decimal
unfolding stoi read codes
decimal-ReadsBack = record { printed = printed; back = back; one = refl; zero_ = refl }
