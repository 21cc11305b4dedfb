-- ===== src/Tests/Library.antt =====
-- Both libraries, a loader, and the opening of a terminal on a Sun.
use ex_pty.Prelude.{
  ℕ, ◌≡◌, ◌≢◌, ◌↔◌, refl, Bool, true, false, ◌&&◌, Option, none, some, List, [], ◌∷◌, map, Bytes,
  codes, pos, All, arith, ◌==ℤ◌, ==ℤ_iff,
}
use ex_pty.Unix.OpenPty.{Terminals, Wanted}
use ex_pty.Library.Defs.{Loader, IsLawful, IsBounded, exports, exported, signature}
use ex_pty.Library.Unix
use ex_pty.Library.Windows
use ex_pty.Library.Bounded.{functions-IsBounded}
use ex_pty.Library.Loading.{load-nif_functions}
use ex_pty.Tests.Erl.{erl}
use ex_pty.Tests.Digits.{decimal}
use ex_pty.Tests.Machine.{linux, kernel}
use ex_pty.Tests.Conpty.{api, util}

abbrev terminals : Terminals
terminals = record {
  sun = true;
  open_master = λ h. some 10;
  grantpt = λ h fd. true;
  unlockpt = λ h fd. true;
  ptsname = λ h fd. some (codes "/dev/pts/5");
  open_slave = λ h name. none;
  openpty = λ h. none;
}

abbrev wanted : Wanted
wanted = record { amaster = true; aslave = true; name = true }

functions-IsBounded_example :
    All IsBounded (Unix.nif_functions erl decimal linux kernel 10)
    × All IsBounded (Windows.nif_functions erl util api 10)
functions-IsBounded_example = functions-IsBounded erl decimal linux kernel util api 10

abbrev all_exported : List (Bytes × ℕ) → List (Bytes × ℕ) → Bool
all_exported [] exported_by = true
all_exported (f ∷ functions) exported_by =
    exported exported_by f && all_exported functions exported_by

all_exported_iff :
    (functions exported_by : List (Bytes × ℕ))
    → (all_exported functions exported_by ≡ true)
      ↔ All (λ f. exported exported_by f ≡ true) functions
all_exported_iff [] exported_by = ((λ h. tt), (λ h. refl))
all_exported_iff (f ∷ functions) exported_by =
    let (to, from) = all_exported_iff functions exported_by in
    ((λ h. (ground arith, to (ground arith))), (λ h. let rest = from h.1 in ground arith))

abbrev loader : Loader
loader = record {
  load = λ functions exported_by result. (result ==ℤ pos 0) && all_exported functions exported_by;
}

loader-IsLawful : IsLawful loader
loader-IsLawful functions exported_by result =
    let (to, from) = all_exported_iff functions exported_by in
    let (to0, from0) = ==ℤ_iff result (pos 0) in
    (
      (λ h. (to0 (ground arith), to (ground arith))),
      (λ h. let rest = from h.1 in let zero = from0 h.0 in ground arith),
    )

abbrev there : Option ℕ
there = some 1

load-nif_functions_example :
    ((loader.load
          (map signature (Unix.nif_functions erl decimal linux kernel 10))
          exports
          (Unix.on_load there).0
        ≡ true)
      ↔ (there ≢ none))
    × (loader.load (map signature (Windows.nif_functions erl util api 10)) exports Windows.on_load
        ≡ false)
load-nif_functions_example =
    load-nif_functions loader loader-IsLawful erl 10 decimal linux kernel there util api
