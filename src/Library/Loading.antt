-- ===== src/Library/Loading.antt =====
-- Which of the libraries `erlang:load_nif` loads into the module of lib/expty_nif.ex.
use ex_pty.Prelude.{
  ℕ, ◌≡◌, ◌≢◌, ◌↔◌, refl, codes, true, false, Option, none, some, map, arith, Bool-cases, inl, inr,
}
use ex_pty.Enif.{Enif}
use ex_pty.Unix.Spawn.Run.{Decimal}
use ex_pty.Unix.Termios.{Platform}
use ex_pty.Unix.Sys.{Kernel}
use ex_pty.Win.PathUtil.{PathUtil}
use ex_pty.Win.Conpty.State.{Api}
use ex_pty.Library.Defs.{Loader, IsLawful, exports, signature}
use ex_pty.Library.Unix
use ex_pty.Library.Windows

module _ (l : Loader) (law : IsLawful l) (e : Enif) (fuel : ℕ) where
  load-unix_iff :
      (d : Decimal) (p : Platform) (k : Kernel) (type : Option ℕ)
      → (l.load (map signature (Unix.nif_functions e d p k fuel)) exports (Unix.on_load type).0
          ≡ true)
        ↔ (type ≢ none)
  unfolding Unix.nif_functions Unix.on_load exports codes
  load-unix_iff d p k none = (
    λ loaded. let (zero_result, rest) = (law _ _ _).0 loaded in absurd (ground arith),
    λ there. absurd (there refl),
  )
  load-unix_iff d p k (some type) = (
    λ loaded none_. absurd (ground arith),
    λ there.
        (law _ _ _).1
          (refl, (refl, (refl, (refl, (refl, (refl, (refl, (refl, (refl, (refl, tt)))))))))),
  )

  load-windows :
      (u : PathUtil) (a : Api)
      → l.load (map signature (Windows.nif_functions e u a fuel)) exports Windows.on_load ≡ false
  unfolding Windows.nif_functions exports codes
  load-windows u a =
      elim (Bool-cases
        (l.load (map signature (Windows.nif_functions e u a fuel)) exports Windows.on_load)) [
          | inl loaded ↦
              let missing : false ≡ true = ((law _ _ _).0 loaded).1.1.1.1.1.0 in absurd cc
          | inr refused ↦ refused
        ]

  -- The module of lib/expty_nif.ex can load the library of pty.cpp exactly if there is a resource type; it
  -- can never load that of conpty.cc, whose `spawn_unix` takes 13 arguments.
  pub load-nif_functions :
      (d : Decimal) (p : Platform) (k : Kernel) (type : Option ℕ) (u : PathUtil) (a : Api)
      → ((l.load (map signature (Unix.nif_functions e d p k fuel)) exports (Unix.on_load type).0
            ≡ true)
          ↔ (type ≢ none))
        × (l.load (map signature (Windows.nif_functions e u a fuel)) exports Windows.on_load
            ≡ false)
  load-nif_functions d p k type u a = (load-unix_iff d p k type, load-windows u a)
