-- ===== src/Prelude/Text.antt =====
-- Bytes, C strings and the text literals of the sources.
use Prim.Native.Nat.{ℕ}
use Prim.Native.Char.{code}
use Prim.Native.String.{String}
use mathlib.Core.Path.{◌≡◌, refl}
use mathlib.Core.Logic.{◌≢◌}
use mathlib.Core.List.{List, [], ◌∷◌, map}
use native.Mathlib.Omega.{arith}
use ex_pty.Prelude.Tests.{◌==◌, if◌then◌else◌}
use ex_pty.Prelude.Lists.{All}

abbrev pub Bytes : Type 0
Bytes = List ℕ

-- The bytes of a literal. All literals of the sources are ASCII.
unfoldable pub codes : String → Bytes
codes String.[] = []
codes (String.◌∷◌ c s) = code c ∷ codes s

-- What a reader of a `char *` sees of a buffer: the bytes before the first NUL.
unfoldable pub c_str : Bytes → Bytes
c_str [] = []
c_str (b ∷ bs) = if b == 0 then [] else b ∷ c_str bs

abbrev pub NoNul : Bytes → Type 0
NoNul = All (λ b. b ≢ 0)

pub c_str_of_nonul : (bs : Bytes) → NoNul bs → c_str bs ≡ bs
unfolding c_str
c_str_of_nonul [] h = refl
c_str_of_nonul (b ∷ bs) h = ground (arith, c_str_of_nonul bs h.1)

pub c_str-NoNul : (bs : Bytes) → NoNul (c_str bs)
unfolding c_str
c_str-NoNul [] = tt
c_str-NoNul (b ∷ bs) = ground (arith, c_str-NoNul bs)

pub map-c_str : (xs : List Bytes) → All NoNul xs → map c_str xs ≡ xs
map-c_str [] h = refl
map-c_str (x ∷ xs) h = ground (arith, c_str_of_nonul x h.0, map-c_str xs h.1)
