-- ===== src/Unix/Registry.antt =====
-- The laws of the map `processes` (Sys): what a lookup finds behind an insertion or a removal, and
-- that the keys stay in order, each once.
use ex_pty.Prelude.{ℕ, ◌<◌, ◌≡◌, refl, none, some, List, [], ◌∷◌, arith, if◌then◌else◌, ◌==◌, All}
use ex_pty.Unix.Sys.{lookup, insert, erase}

-- All keys lie above `n` and rise along the list.
abbrev pub Above : ℕ → List (ℕ × ℕ) → Type 0
Above n [] = Unit {0}
Above n ((k, v) ∷ m) = (n < k) × Above k m

abbrev pub IsMap : List (ℕ × ℕ) → Type 0
IsMap [] = Unit {0}
IsMap ((k, v) ∷ m) = Above k m

Above-mono : (i n : ℕ) (m : List (ℕ × ℕ)) → i < n → Above n m → Above i m
Above-mono i n [] h a = tt
Above-mono i n ((k, v) ∷ m) h a = (omega arith, a.1)

pub lookup_below : (k n : ℕ) (m : List (ℕ × ℕ)) → Above n m → k < n → lookup k m ≡ none
unfolding lookup
lookup_below k n [] a h = refl
lookup_below k n ((j, v) ∷ m) a h = ground (arith, lookup_below k j m a.1)

lookup_self-Above : (n : ℕ) (m : List (ℕ × ℕ)) → Above n m → lookup n m ≡ none
unfolding lookup
lookup_self-Above n [] a = refl
lookup_self-Above n ((j, v) ∷ m) a = ground (arith, lookup_below n j m a.1)

insert-Above : (n k v : ℕ) (m : List (ℕ × ℕ)) → n < k → Above n m → Above n (insert k v m)
unfolding insert
insert-Above n k v [] h a = (h, tt)
insert-Above n k v ((j, w) ∷ m) h a = ground (arith, insert-Above j k v m, Above-mono k j m)

pub insert-IsMap : (k v : ℕ) (m : List (ℕ × ℕ)) → IsMap m → IsMap (insert k v m)
unfolding insert
insert-IsMap k v [] a = tt
insert-IsMap k v ((j, w) ∷ m) a = ground (arith, insert-Above j k v m, Above-mono k j m)

erase-Above : (n k : ℕ) (m : List (ℕ × ℕ)) → Above n m → Above n (erase k m)
unfolding erase
erase-Above n k [] a = tt
erase-Above n k ((j, w) ∷ m) a = ground (arith, erase-Above j k m, Above-mono n j m)

pub erase-IsMap : (k : ℕ) (m : List (ℕ × ℕ)) → IsMap m → IsMap (erase k m)
unfolding erase
erase-IsMap k [] a = tt
erase-IsMap k ((j, w) ∷ []) a = ground arith
erase-IsMap k ((j, w) ∷ (i, u) ∷ m) a = ground (arith, erase-Above i k m, Above-mono j i m)

pub lookup-insert :
    (j k v : ℕ) (m : List (ℕ × ℕ))
    → lookup j (insert k v m) ≡ (if k == j then some v else lookup j m)
unfolding lookup insert
lookup-insert j k v [] = refl
lookup-insert j k v ((i, w) ∷ m) = ground (arith, lookup-insert j k v m)

pub lookup-erase :
    (j k : ℕ) (m : List (ℕ × ℕ))
    → IsMap m
    → lookup j (erase k m) ≡ (if k == j then none else lookup j m)
unfolding lookup erase
lookup-erase j k [] a = ground arith
lookup-erase j k ((i, w) ∷ []) a = ground arith
lookup-erase j k ((i, w) ∷ (n, u) ∷ m) a =
    ground (arith, lookup-erase j k ((n, u) ∷ m), lookup_self-Above i ((n, u) ∷ m) a)

-- A predicate that all entries meet.
pub insert-All {κ} :
    (P : ℕ × ℕ → Type κ) (k v : ℕ) (m : List (ℕ × ℕ)) → P (k, v) → All P m → All P (insert k v m)
unfolding insert
insert-All P k v [] h a = (h, tt)
insert-All P k v ((j, w) ∷ m) h a = ground (arith, insert-All P k v m h a.1)

pub erase-All {κ} : (P : ℕ × ℕ → Type κ) (k : ℕ) (m : List (ℕ × ℕ)) → All P m → All P (erase k m)
unfolding erase
erase-All P k [] a = tt
erase-All P k ((j, w) ∷ m) a = ground (arith, erase-All P k m a.1)
