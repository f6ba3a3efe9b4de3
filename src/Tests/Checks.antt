-- ===== src/Tests/Checks.antt =====
-- The theorems on `VerifyResponse` and on whole messages, at the small library.
use schnorr.Common.{
  ◌↔◌, some, Bool, ℕ, ◌%◌, ◌^◌, ◌≡◌, ◌++◌, refl, ap, List, [], ◌∷◌, true, not, length, replicate,
  length-replicate, arith,
}
use schnorr.Run.{returns}
use schnorr.MultiSig.Aggregate.{verify_response, verify_response_main}
use schnorr.MultiSig.Signer.{HoldsNumber}
use schnorr.MultiSig.Checked.{Checked, checked_accepted}
use schnorr.MultiSig.Honest.{honest_passes}
use schnorr.Nonce.{generate_dsa_nonce, fill_bytes, round_digest}
use schnorr.Common.Bytes.{be}
use schnorr.Sha2
use schnorr.Sign.{sign_slice, sign_loop, draw_nonce, attempt, sign, sign_key}
use schnorr.Sign.Whole.{sign_key-verify_key}
use schnorr.Verify.{verify, multi_sig_verify, verify_key, multi_sig_verify_slice}
use mathlib.Core.List.Perm
use mathlib.Core.Quot
use schnorr.Keys.{pub_key_copy}
use schnorr.MultiSig.Aggregate.{aggregate_pub_keys, add_pub_keys}
use schnorr.MultiSig.Party.{multi_sig_verify-Party}
use schnorr.Verify.Total.{verify-returns, multi_sig_verify-returns}
use schnorr.Verify.{verify_slice}
use schnorr.Verify.Whole.{verify-append}
use schnorr.Tests.Octets.{octets}
use schnorr.Tests.Toy.{toy, toy_doc, toy_runs}
use schnorr.Tests.Examples.{
  priv_one, key_one, key_two, sig_one, sig_two, sig_blank, message_one, message_two, commit_one,
  commit_two, challenge_two, response_two, response_sum, keys_two, commits_two, challenge_made_two,
  responses_two, signed_two, Signer-one,
}

passes_two : verify_response toy response_two challenge_two key_one commit_one ≡ returns true
unfolding verify_response verify_response_main
passes_two = refl

Checked-two : Checked toy toy_doc toy_runs challenge_two key_one commit_one response_two
Checked-two = (λ n h. refl, passes_two)

checked_accepted_example : multi_sig_verify_slice toy message_two 0 1 sig_two key_two ≡ returns true
checked_accepted_example =
    checked_accepted toy toy_doc toy_runs (key_one ∷ key_one ∷ []) (commit_one ∷ commit_one ∷ [])
      (response_two ∷ response_two ∷ []) key_two commit_two challenge_two response_sum sig_two
      message_two 0 1 (Checked-two, (Checked-two, tt)) keys_two commits_two challenge_made_two
      responses_two signed_two (omega arith) (omega arith) (omega arith)

honest_passes_example :
    (s : ℕ) × HoldsNumber toy toy_doc toy_runs response_two s
    × (verify_response toy response_two challenge_two key_one commit_one
        ≡ returns (not (toy.bn_is_zero s)))
honest_passes_example =
    honest_passes toy toy_doc toy_runs challenge_two 2 key_one commit_one response_two
      (refl, refl, refl) Signer-one

-- 2^32 bytes.
unfoldable many : List ℕ
many = replicate (2 ^ 32) 0

length-many : length many % 2 ^ 32 ≡ 0
unfolding many
length-many = ap (λ n. n % 2 ^ 32) (length-replicate {A = ℕ} (2 ^ 32) 0)

verify-append_example :
    (verify toy (message_one ++ many) sig_one key_one ≡ verify toy message_one sig_one key_one)
    × (multi_sig_verify toy (message_one ++ many) sig_one key_one
        ≡ multi_sig_verify toy message_one sig_one key_one)
    × (verify_key toy (message_one ++ many) sig_one key_one
        ≡ verify_key toy message_one sig_one key_one)
verify-append_example = verify-append toy message_one many sig_one key_one (omega arith) length-many

key_signed :
    sign_key toy message_one (priv_one, key_one) 1 sig_blank (1 ∷ []) ≡ returns (true, sig_one, [])
unfolding sign_key sign sign_slice sign_loop draw_nonce attempt generate_dsa_nonce fill_bytes
    round_digest octets Sha2.new Sha2.update Sha2.update_range Sha2.finalize be
key_signed = refl

sign_key-verify_key_example :
    (verify_key toy message_one sig_one key_one ≡ returns true)
    × (verify_key toy (message_one ++ many) sig_one key_one ≡ returns true)
sign_key-verify_key_example =
    sign_key-verify_key toy toy_doc toy_runs message_one many priv_one key_one 1 sig_blank (1 ∷ [])
      sig_one [] refl refl length-many key_signed

verify-returns_example :
    ((b : Bool) × (verify_slice toy message_one 0 1 sig_one key_two ≡ returns b))
    × ((b : Bool) × (verify toy message_one sig_one key_two ≡ returns b))
    × ((b : Bool) × (verify_key toy message_one sig_one key_two ≡ returns b))
verify-returns_example = verify-returns toy message_one 0 1 sig_one key_two (omega arith)

multi_sig_verify-returns_example :
    ((b : Bool) × (multi_sig_verify_slice toy message_one 0 1 sig_one key_two ≡ returns b))
    × ((b : Bool) × (multi_sig_verify toy message_one sig_one key_two ≡ returns b))
multi_sig_verify-returns_example =
    multi_sig_verify-returns toy message_one 0 1 sig_one key_two (λ a. (some (a % 3), refl))
      (omega arith)

-- Three signers in two orders, whose keys add up to 4G, which is G.
keys_three : aggregate_pub_keys toy (key_one ∷ key_two ∷ key_one ∷ []) ≡ returns (some key_one)
unfolding aggregate_pub_keys add_pub_keys pub_key_copy
keys_three = refl

keys_three_other :
    aggregate_pub_keys toy (key_two ∷ key_one ∷ key_one ∷ []) ≡ returns (some key_one)
unfolding aggregate_pub_keys add_pub_keys pub_key_copy
keys_three_other = refl

multi_sig_verify-Party_example :
    (multi_sig_verify_slice toy message_two 0 1 sig_two key_one ≡ returns true)
    ↔ (multi_sig_verify_slice toy message_two 0 1 sig_two key_one ≡ returns true)
multi_sig_verify-Party_example =
    multi_sig_verify-Party toy toy_doc toy_runs (key_one ∷ key_two ∷ key_one ∷ [])
      (key_two ∷ key_one ∷ key_one ∷ []) key_one key_one message_two 0 1 sig_two
      (Quot.sound (Perm.swap key_two key_one (key_one ∷ []))) keys_three keys_three_other
      (omega arith)
