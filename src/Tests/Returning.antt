-- ===== src/Tests/Returning.antt =====
-- The theorems on calls that give a result, at signatures of the group of three elements.
use schnorr.Common.{◌+◌, ◌<◌, List, ℕ, ◌≡◌, ◌≢◌, ◌↔◌, refl, [], ◌∷◌, true, some, arith}
use schnorr.Common.Bytes.{be}
use schnorr.Keys.{pub_key_lt, pub_key_gt, pub_key_eq, pub_key_ne}
use schnorr.Keys.Order.{pub_key_order}
use schnorr.MultiSig.Copies.{challenge_copy_lem}
use schnorr.Tests.Toy.{tri_encode}
use schnorr.Common.{ltb, ◌==◌, not}
use schnorr.MultiSig.CommitSecret
use schnorr.MultiSig.RoundTrip.{commit_secret_deserialize-serialize}
use schnorr.Sign.KeyPair.{Draws, gen_key_pair-returns}
use schnorr.Sign.{gen_key_pair}
use schnorr.Keys.{PrivKey}
use schnorr.OpenSsl.Laws.{times}
use schnorr.Tests.Toy.{pop, tri_group}
use schnorr.Tests.Examples.{secret_one}
use schnorr.Common.{◌%◌}
use schnorr.Verify.{verify_slice}
use schnorr.Verify.Accepts.{InRange}
use schnorr.Verify.Wraps.{verify_slice_wraps}
use schnorr.Tests.Examples.{sig_one}
use schnorr.Run.{Outcome}
use schnorr.Common.{◌-◌, ◌^◌, false}
use schnorr.Run.{returns}
use schnorr.Keys.{PubKey, Signature}
use schnorr.Sign.{sign_slice}
use schnorr.Common.{◌≤◌}
use schnorr.Tests.Octets.{octets}
use schnorr.Nonce.{generate_dsa_nonce, fill_bytes, round_digest}
use schnorr.Sign.Runs.{DrawsTo, Serves, serves, redraw, sign_slice-returns}
use schnorr.MultiSig.Objects.{NumberObject}
use schnorr.MultiSig.Challenge
use schnorr.MultiSig.Aggregate.{verify_response}
use schnorr.MultiSig.Answers.{Answers, verify_response-Answers}
use schnorr.Tests.Toy.{neutral, one, two, toy, toy_doc, toy_runs}
use schnorr.Tests.Examples.{
  message_one, priv_one, key_one, sig_blank, key_two, commit_one, challenge_two, response_two,
}

one_finite : one ≢ neutral
one_finite e = cc

two_finite : two ≢ neutral
two_finite e = cc

one_pos : 0 < 1
one_pos = omega arith

one_inside : 0 + 1 ≤ 1
one_inside = omega arith

one_small : 0 + 1 < 2 ^ 32
one_small = omega arith

-- The bytes 0 give the nonce 0, and the bytes 1 the nonce 1.
draws_zero :
    DrawsTo toy toy_doc toy_runs message_one 0 1 priv_one key_one refl one_finite one_pos one_inside
      one_small
      (0 ∷ 1 ∷ [])
      0
      (1 ∷ [])
unfolding generate_dsa_nonce fill_bytes round_digest octets be
draws_zero = refl

draws_one :
    DrawsTo toy toy_doc toy_runs message_one 0 1 priv_one key_one refl one_finite one_pos one_inside
      one_small
      (1 ∷ [])
      1
      []
unfolding generate_dsa_nonce fill_bytes round_digest octets be
draws_one = refl

one_Serves :
    Serves toy toy_doc toy_runs message_one 0 1 priv_one key_one refl one_finite one_pos one_inside
      one_small 1
unfolding be
one_Serves = record { nonzero = refl; finite = one_finite; r_ne = omega arith; s_ne = omega arith }

sign_slice-returns_example :
    (sig : Signature toy) × (sig.r ≡ 2)
    × (sig.s ≡ 2)
    × (sign_slice toy message_one 0 1 priv_one key_one 2 sig_blank (0 ∷ 1 ∷ [])
        ≡ returns (true, sig, []))
unfolding be
sign_slice-returns_example =
    sign_slice-returns toy toy_doc toy_runs message_one 0 1 priv_one key_one refl one_finite one_pos
      one_inside one_small 1 2 sig_blank (0 ∷ 1 ∷ []) 1 []
      (redraw draws_zero refl (serves draws_one one_Serves)) (omega arith)

verify_response-Answers_example :
    (verify_response toy response_two challenge_two key_one commit_one ≡ returns true)
    ↔ Answers toy toy_doc toy_runs response_two challenge_two key_one commit_one 2 2 one
        (refl, refl, refl)
        (refl, refl, refl)
        refl
        refl
verify_response-Answers_example =
    verify_response-Answers toy toy_doc toy_runs response_two challenge_two key_one commit_one 2 2
      one (refl, refl, refl) (refl, refl, refl) refl refl

one_range : InRange toy toy_doc 1
one_range = record { nonneg = refl; pos = omega arith; lt = omega arith }

two_range : InRange toy toy_doc 2
two_range = record { nonneg = refl; pos = omega arith; lt = omega arith }

-- The slice of two bytes from 2^32 - 1 ends at 1, modulo 2^32.
verify_slice_wraps_example :
    verify_slice toy message_one (2 ^ 32 - 1) 2 sig_one key_one ≡ Outcome.faults
verify_slice_wraps_example =
    verify_slice_wraps toy toy_doc toy_runs message_one (2 ^ 32 - 1) 2 sig_one key_one (omega arith)
      (omega arith) (omega arith) two_range two_range one_finite one_finite

commit_secret_deserialize-serialize_example :
    (dst : List ℕ) × (read : NumberObject toy) × (CommitSecret.serialize toy secret_one (9 ∷ []) 1
      ≡ returns (dst, true))
    × (CommitSecret.deserialize toy response_two dst 1 ≡ (read, false))
    × (CommitSecret.eq toy read secret_one ≡ returns true)
commit_secret_deserialize-serialize_example =
    commit_secret_deserialize-serialize toy toy_doc toy_runs secret_one response_two 1 (9 ∷ []) 1
      (refl, refl, refl) (omega arith) (omega arith)

abbrev next_number : List ℕ → ℕ
next_number [] = 1
next_number (x ∷ xs) = x % 3

abbrev rest_of : List ℕ → List ℕ
rest_of [] = []
rest_of (x ∷ xs) = xs

pub toy_drawn : (w : List ℕ) → pop 3 w ≡ (some (next_number w), rest_of w)
toy_drawn [] = refl
toy_drawn (x ∷ xs) = refl

pub toy_number_lt : (w : List ℕ) → next_number w < 3
toy_number_lt [] = omega arith
toy_number_lt (x ∷ xs) = omega arith

abbrev pub toy_draws : Draws toy toy_doc toy_runs
toy_draws = record {
  number = next_number;
  after = rest_of;
  drawn = toy_drawn;
  nonneg = λ w. refl;
  lt = toy_number_lt;
}

gen_key_pair-returns_example :
    (priv : PrivKey toy) × (key : PubKey toy) × (w : List ℕ) × (gen_key_pair toy 2 (3 ∷ 2 ∷ [])
      ≡ returns (priv, key, w))
    × InRange toy toy_doc priv.d
    × (key.p ≡ times tri_group priv.d one)
gen_key_pair-returns_example =
    gen_key_pair-returns toy toy_doc toy_runs toy_draws 1 2 (3 ∷ 2 ∷ []) (omega arith) refl

pub_key_order_example :
    (pub_key_lt toy key_one key_two ≡ returns (ltb (be (tri_encode one)) (be (tri_encode two))))
    × (pub_key_gt toy key_one key_two ≡ returns (ltb (be (tri_encode two)) (be (tri_encode one))))
    × (pub_key_eq toy key_one key_two ≡ returns (be (tri_encode one) == be (tri_encode two)))
    × (pub_key_ne toy key_one key_two ≡ returns (not (be (tri_encode one) == be (tri_encode two))))
    × (((be (tri_encode one) == be (tri_encode two)) ≡ true) ↔ (one ≡ two))
pub_key_order_example = pub_key_order toy toy_doc toy_runs key_one key_two

abbrev challenge_unset : NumberObject toy
challenge_unset = record { number = some 2; initialized = false }

challenge_copy_lem_example :
    (copy : NumberObject toy) × (Challenge.copy toy challenge_unset ≡ returns copy)
    × (copy.initialized ≡ true)
    × (Challenge.eq toy copy challenge_unset ≡ returns false)
challenge_copy_lem_example = challenge_copy_lem toy toy_doc toy_runs challenge_unset 2 refl refl
