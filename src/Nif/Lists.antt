-- ===== src/Nif/Lists.antt =====
-- `get_list` of c_src/nif_utils.h against the list of the heads that the argument has.
use ex_pty.Prelude.{
  ℕ, zero, suc, ◌+◌, ◌<◌, ◌≡◌, refl, Bool, true, false, none, some, List, [], ◌∷◌, ◌++◌, Bytes,
  length, append-nil, append_assoc, map, arith, ◌↔◌, Option-cases, inl, inr, ◌∙◌,
}
use ex_pty.Enif.{Enif, IsLawful, Cells}
use ex_pty.Nif.Containers.{get_list_loop, get_list}

module _ (e : Enif) where
  -- Whether all heads are binaries, and the binaries before the first that is not.
  abbrev pub binaries : List e.Term → Bool × List Bytes
  binaries [] = (true, [])
  binaries (t ∷ ts) = elim (e.inspect_binary t) [
    | none ↦ (false, [])
    | some bytes ↦ ((binaries ts).0, bytes ∷ (binaries ts).1)
  ]

  pub get_list_loop-binaries :
      (fuel : ℕ) {t : e.Term} {heads : List e.Term} (var : List Bytes)
      → Cells e t heads
      → length heads < fuel
      → get_list_loop e fuel t var ≡ some ((binaries heads).0, var ++ (binaries heads).1)
  unfolding get_list_loop
  get_list_loop-binaries zero var c h = absurd (omega arith)
  get_list_loop-binaries (suc fuel) var (Cells.stop s) h = rw (s, get_list_loop, append-nil)
  get_list_loop-binaries (suc fuel) var (Cells.cell {head} {tail} {heads} s c) h =
      rw (s, get_list_loop)
        (elim (Option-cases (e.inspect_binary head)) [
          | inl bad ↦ rw (bad, binaries, append-nil)
          | inr (bytes, good) ↦
              rw (good, binaries)
                (get_list_loop-binaries fuel (var ++ bytes ∷ []) c (omega arith) ∙ rw append_assoc)
        ])

  binaries→map :
      (heads : List e.Term) (bins : List Bytes)
      → binaries heads ≡ (true, bins)
      → map e.inspect_binary heads ≡ map some bins
  binaries→map [] [] h = refl
  binaries→map [] (b ∷ bins) h = cc
  binaries→map (t ∷ ts) [] h = ground arith
  binaries→map (t ∷ ts) (b ∷ bins) h = ground (arith, binaries→map ts bins)

  map→binaries :
      (heads : List e.Term) (bins : List Bytes)
      → map e.inspect_binary heads ≡ map some bins
      → binaries heads ≡ (true, bins)
  map→binaries [] [] h = refl
  map→binaries [] (b ∷ bins) h = cc
  map→binaries (t ∷ ts) [] h = cc
  map→binaries (t ∷ ts) (b ∷ bins) h = ground (arith, map→binaries ts bins)

  module _ (l : IsLawful e) where
    -- Of a proper list `get_list` ends within its fuel, and appends the binaries before the first head
    -- that is none; its code says whether there was no such head.
    pub get_list-binaries :
        (t : e.Term) (n : ℕ) (var : List Bytes)
        → e.get_list_length t ≡ some n
        → (heads : List e.Term) × Cells e t heads
          × (length heads ≡ n)
          × (get_list e t var ≡ some ((binaries heads).0, var ++ (binaries heads).1))
    unfolding get_list
    get_list-binaries t n var h =
        let (heads, c, len) = l.list_cells t n h in
        (heads, c, len, rw (h, get_list) (get_list_loop-binaries (n + 1) var c (omega arith)))

    -- Of a proper list `get_list` succeeds with `bins` exactly if the heads are the binaries `bins`,
    -- in order.
    pub get_list_iff :
        (t : e.Term) (n : ℕ)
        → e.get_list_length t ≡ some n
        → (heads : List e.Term) × Cells e t heads
          × (length heads ≡ n)
          × ((bins : List Bytes)
              → (get_list e t [] ≡ some (true, bins))
                ↔ (map e.inspect_binary heads ≡ map some bins))
    get_list_iff t n h =
        let (heads, c, len, run) = get_list-binaries t n [] h in
        (
          heads,
          c,
          len,
          λ bins. (
            (λ ok. binaries→map heads bins (ground arith)),
            (λ all. ground (arith, map→binaries heads bins all)),
          ),
        )
