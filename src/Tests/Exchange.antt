-- ===== src/Tests/Exchange.antt =====
-- A pair of keys is made, signs, and its public key is sent to the verifier.
use schnorr.Common.{ℕ, List, [], ◌∷◌, true, ◌≡◌, refl, arith}
use schnorr.Run.{returns}
use schnorr.Keys.{
  PubKey, priv_key_generate, draw_key, pub_key_of, priv_key_copy, pub_key_copy, pub_key_serialize,
  pub_key_deserialize,
}
use schnorr.Sign.{gen_key_pair}
use schnorr.Sign.EndToEnd.{generated_signs_verifies}
use schnorr.Verify.{verify_slice}
use schnorr.Tests.Toy.{toy, toy_doc, toy_runs}
use schnorr.Tests.Examples.{priv_one, key_one, key_two, sig_one, sig_blank, message_one, signed_one}
use schnorr.Tests.Returning.{toy_draws}

generated_one : gen_key_pair toy 1 (1 ∷ 1 ∷ []) ≡ returns (priv_one, key_one, 1 ∷ [])
unfolding gen_key_pair priv_key_generate draw_key pub_key_of priv_key_copy pub_key_copy
generated_one = refl

generated_signs_verifies_example :
    (dst : List ℕ) × (read : PubKey toy) × (pub_key_serialize toy key_one (7 ∷ []) 1
      ≡ returns (dst, true))
    × (pub_key_deserialize toy key_two dst 1 ≡ returns (read, true))
    × (verify_slice toy message_one 0 1 sig_one read ≡ returns true)
generated_signs_verifies_example =
    generated_signs_verifies toy toy_doc toy_runs toy_draws 0 1 (1 ∷ 1 ∷ []) (1 ∷ []) priv_one
      key_one key_two message_one 0 1 1 sig_blank sig_one [] (7 ∷ []) 1 (omega arith) refl
      generated_one signed_one (omega arith) (omega arith)
