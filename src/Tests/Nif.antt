-- ===== src/Tests/Nif.antt =====
-- Arguments and replies as terms of Erl.
use ex_pty.Prelude.{◌≡◌, refl, some, [], ◌∷◌, Bytes, arith}
use ex_pty.Enif.{Pairs}
use ex_pty.Nif.Containers.{get_env}
use ex_pty.Nif.Maps.{entries, get_env-entries}
use ex_pty.Tests.Erl.{Erl, erl}

abbrev word : Bytes
word = 111 ∷ 102 ∷ 102 ∷ []

abbrev two_words : Erl
two_words = Erl.cons (Erl.binary word) (Erl.cons (Erl.binary []) Erl.nil)

abbrev one_pair : Erl
one_pair = Erl.pairs (Erl.cons (Erl.tuple2 (Erl.binary word) (Erl.binary [])) Erl.nil)

get_env-entries_example :
    get_env erl 2 one_pair []
    ≡ some (
      (entries erl ((Erl.binary word, Erl.binary []) ∷ [])).0,
      (entries erl ((Erl.binary word, Erl.binary []) ∷ [])).1,
    )
get_env-entries_example =
    get_env-entries erl 2 one_pair ((Erl.binary word, Erl.binary []) ∷ []) [] refl
      (Pairs.pair refl (Pairs.stop refl)) (omega arith)
