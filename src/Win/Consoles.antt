-- ===== src/Win/Consoles.antt =====
-- c_src/win/conpty_console_list.cc: the processes of the console of a shell.
use ex_pty.Prelude.{
  ℕ, suc, zero, ◌-◌, ◌%◌, ◌^◌, ◌≤◌, ◌<◌, ◌≡◌, ◌↔◌, ◌⊎◌, inl, inr, refl, Bool, true, Option, none,
  some, List, [], ◌∷◌, ◌++◌, ℤ, pos, negsuc, length, take, drop, ltb, ap, arith, if◌then◌else◌,
  length-append, length-take, leb, take_left, Bool-cases,
}

-- The calls of Windows. `console_processes` gives, for the number of the call and the buffer, the count
-- and the buffer behind the call.
pub record Console : Type 0 where
  pub self_pid : ℤ
  pub free_console : Bool
  pub attach_console : ℤ → Bool
  pub console_processes : ℕ → List ℕ → ℕ × List ℕ

-- The documentation of `GetConsoleProcessList`: the count of the processes, which are stored if the
-- buffer has room for all, and else the buffer is left.
pub record IsLawful (w : Console) (lists : ℕ → List ℕ) : Type 0 where
  pub count : (n : ℕ) (buffer : List ℕ) → (w.console_processes n buffer).0 ≡ length (lists n)
  pub stored :
      (n : ℕ) (buffer : List ℕ)
      → length (lists n) ≤ length buffer
      → (w.console_processes n buffer).1 ≡ lists n ++ drop (length (lists n)) buffer
  pub kept :
      (n : ℕ) (buffer : List ℕ)
      → length buffer < length (lists n)
      → (w.console_processes n buffer).1 ≡ buffer

-- What the program prints and exits with, or an access behind the end of the vector.
pub data End : Type 0 where
  usage free_failed attach_failed reattach_failed : End
  listed : List ℕ → End
  undefined : End

-- (SHORT)n
unfoldable pub short : ℤ → ℤ
short (pos n) = let m = n % 2 ^ 16 in if ltb m (2 ^ 15) then pos m else negsuc ((2 ^ 16 - 1) - m)
short (negsuc n) = let m = n % 2 ^ 16 in if ltb m (2 ^ 15) then negsuc m else pos ((2 ^ 16 - 1) - m)

-- A vector of n zeros, and `resize`.
abbrev pub zeros : ℕ → List ℕ
zeros zero = []
zeros (suc n) = 0 ∷ zeros n

abbrev resize : ℕ → List ℕ → List ℕ
resize n v = take n v ++ zeros (n - length v)

module _ (w : Console) where
  -- The two calls of `GetConsoleProcessList`.
  unfoldable pub process_list : ℕ × List ℕ
  process_list =
      let r = w.console_processes 0 (zeros 64) in
      if ltb 64 (r.0) then w.console_processes 1 (resize (r.0) (r.1)) else r

  -- `for (i = 0; i < processCount; i++) printf("%d,", processList[i]);`
  unfoldable pub print_list : ℕ × List ℕ → End
  print_list r = if ltb (length (r.1)) (r.0) then undefined else listed (take (r.0) (r.1))

  -- `main` with its argument read by `atoi`, and with `none` for another number of arguments.
  unfoldable pub main : Option ℤ → End
  unfolding process_list print_list short
  main none = usage
  main (some n) =
      if w.free_console
      then (if w.attach_console (short n)
          then (let r = process_list in
              if w.attach_console w.self_pid then print_list r else reattach_failed)
          else attach_failed)
      else free_failed

length-zeros : (n : ℕ) → length (zeros n) ≡ n
length-zeros zero = refl
length-zeros (suc n) = ap suc (length-zeros n)

length-resize : (n : ℕ) (v : List ℕ) → length v ≤ n → length (resize n v) ≡ n
length-resize n v le = omega (
  arith,
  length-append (take n v) (zeros (n - length v)),
  length-zeros (n - length v),
  length-take n v,
)

-- A number is attached to as it is exactly if it lies below 2 ^ 15.
pub short_iff : (n : ℕ) → (short (pos n) ≡ pos n) ↔ (n < 2 ^ 15)
unfolding short
short_iff n = ground arith

module _ (w : Console) (lists : ℕ → List ℕ) (law : IsLawful w lists) where
  print_list-stored :
      (n : ℕ) (buffer : List ℕ)
      → length (lists n) ≤ length buffer
      → print_list w (w.console_processes n buffer) ≡ listed (lists n)
  unfolding print_list
  print_list-stored n buffer le = ground (
    arith,
    law.count n buffer,
    law.stored n buffer le,
    length-append (lists n) (drop (length (lists n)) buffer),
    take_left (lists n) (drop (length (lists n)) buffer),
  )

  print_list-kept :
      (n : ℕ) (buffer : List ℕ)
      → length buffer < length (lists n)
      → print_list w (w.console_processes n buffer) ≡ undefined
  unfolding print_list
  print_list-kept n buffer lt = ground (arith, law.count n buffer, law.kept n buffer lt)

  -- What the two lists that Windows has at the two calls make of the output.
  abbrev pub expected : End
  expected =
      if leb (length (lists 0)) 64
      then listed (lists 0)
      else if leb (length (lists 1)) (length (lists 0))
      then listed (lists 1)
      else undefined

  process_list-cases :
      ((length (lists 0) ≤ 64) × (process_list w ≡ w.console_processes 0 (zeros 64)))
      ⊎ ((64 < length (lists 0))
          × (process_list w ≡ w.console_processes 1 (resize (length (lists 0)) (zeros 64))))
  unfolding process_list
  process_list-cases = elim (Bool-cases (ltb 64 (length (lists 0)))) [
    | inl more ↦ inr (
      ground arith,
      rw (law.count 0 (zeros 64), more, law.kept 0 (zeros 64) (ground arith), process_list) refl,
    )
    | inr fits ↦ inl (ground arith, rw (law.count 0 (zeros 64), fits, process_list) refl)
  ]

  print_list-expected : print_list w (process_list w) ≡ expected
  print_list-expected = elim process_list-cases [
    | inl (le, e) ↦ rw e (ground (arith, print_list-stored 0 (zeros 64) le))
    | inr (lt, e) ↦
        let size = length-resize (length (lists 0)) (zeros 64) (omega arith) in
        rw e (
          ground (
            arith,
            size,
            print_list-stored 1 (resize (length (lists 0)) (zeros 64)),
            print_list-kept 1 (resize (length (lists 0)) (zeros 64)),
          ))
  ]

  -- Where the program can attach to both consoles, it lists the processes of the first call if there
  -- are at most 64. If there are more, it lists those of the second call, unless there are then more than at
  -- the first: then it reads behind the end of its vector.
  pub main_lists :
      (n : ℤ)
      → w.free_console ≡ true
      → w.attach_console (short n) ≡ true
      → w.attach_console w.self_pid ≡ true
      → main w (some n) ≡ expected
  unfolding main
  main_lists n f a b = ground (arith, print_list-expected)
