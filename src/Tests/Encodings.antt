-- ===== src/Tests/Encodings.antt =====
-- The theorems on `Serialize` and `Deserialize` at the small library.
use schnorr.Common.{
  ℕ, List, take, drop, replicate, ◌-◌, ◌^◌, ◌≡◌, ◌≢◌, refl, [], ◌∷◌, true, false, arith,
}
use schnorr.Run.{returns}
use schnorr.BignumSerialize.{set_number}
use schnorr.Keys.{priv_key_serialize}
use schnorr.Serializable.Classes
use schnorr.Serializable.Classes.{Object, serializable}
use schnorr.Serializable.Inside.{deserialize-outside}
use schnorr.Serializable.Outside.{serialize-outside}
use schnorr.Serializable.Unwritten.{serialize-unwritten}
use schnorr.Tests.Toy.{toy, toy_doc, toy_numbers, toy_runs}
use schnorr.Tests.Examples.{priv_one, sig_one, challenge_two}

abbrev sevens : List ℕ
sevens = replicate 40 7

written_sevens :
    (serializable toy Classes.priv_key).serialize priv_one sevens 2
    ≡ returns (set_number toy sevens 2 32 1, true)
unfolding priv_key_serialize
written_sevens = refl

-- A key in the middle of forty bytes.
serialize-outside_example :
    (take 2 (set_number toy sevens 2 32 1) ≡ take 2 sevens)
    × (drop 34 (set_number toy sevens 2 32 1) ≡ drop 34 sevens)
serialize-outside_example =
    serialize-outside toy toy_numbers sevens 2 (omega arith) Classes.priv_key priv_one
      (set_number toy sevens 2 32 1) true (omega arith) written_sevens

-- A signature in two bytes.
deserialize-outside_example :
    (serializable toy Classes.signature).deserialize sig_one (7 ∷ 8 ∷ []) 1
    ≡ returns (sig_one, false)
deserialize-outside_example =
    deserialize-outside toy (7 ∷ 8 ∷ []) 1 (omega arith) Classes.signature sig_one (omega arith)

challenge≢signature : Classes.challenge ≢ Classes.signature
challenge≢signature e = cc

serialize-unwritten_example :
    (serializable toy Classes.challenge).serialize challenge_two (7 ∷ []) (2 ^ 32 - 1)
    ≡ returns (7 ∷ [], true)
serialize-unwritten_example =
    serialize-unwritten toy toy_doc toy_runs (7 ∷ []) (2 ^ 32 - 1) (omega arith) Classes.challenge
      challenge_two challenge≢signature (2, (refl, refl, refl), omega arith) (omega arith)
