-- ===== src/Tests/Examples.antt =====
-- The theorems at signatures of the group of three elements.
use schnorr.Common.{ℕ, ◌≡◌, refl, List, [], ◌∷◌, true, some, arith}
use schnorr.Run.{returns}
use schnorr.Keys.{PrivKey, PubKey, Signature, pub_key_of, pub_key_copy, signature_new}
use schnorr.Verify.{
  verify_slice, multi_sig_verify_slice, verify_main, multi_sig_verify_main, check, out_of_range,
}
use schnorr.Verify.Accepts.{Accepts, InRange}
use schnorr.Verify.Sound.{verify_slice_sound, multi_sig_verify_slice_sound}
use schnorr.Verify.Complete.{verify_slice_complete, multi_sig_verify_slice_complete}
use schnorr.MultiSig.Objects.{NumberObject, number_new, number_copy}
use schnorr.MultiSig.CommitPoint
use schnorr.MultiSig.CommitPoint.{CommitPoint}
use schnorr.MultiSig.Response
use schnorr.MultiSig.Challenge
use schnorr.MultiSig.Challenges.{of_slice-IsChallenge, IsChallenge}
use schnorr.MultiSig.Aggregate.{
  aggregate_pub_keys, aggregate_commits, aggregate_responses, aggregate_sign, add_pub_keys,
  add_commits, add_responses,
}
use schnorr.MultiSig.Signers.{Signer}
use schnorr.MultiSig.Correct.{multi_sig_correct}
use schnorr.Sha2
use schnorr.Tests.Octets.{octets}
use schnorr.Nonce.{generate_dsa_nonce, fill_bytes, round_digest}
use schnorr.Sign.{sign_slice, sign_loop, draw_nonce, attempt}
use schnorr.Sign.Sound.{sign_slice-Accepts, sign_slice-verify_slice}
use schnorr.MultiSig.Sums.{aggregate_pub_keys-sum, aggregate_responses-sum, multiple_of, Reduced}
use schnorr.OpenSsl.Group.{sum}
use schnorr.Tests.Toy.{tri_group}
use schnorr.Common.{map}
use schnorr.Tests.Toy.{one, two, toy, toy_doc, toy_runs}
use schnorr.Common.Bytes.{be}

-- A signature of the message 2 under the key G.
abbrev pub key_one : PubKey toy
key_one = record { p = one }

abbrev pub sig_one : Signature toy
sig_one = record { r = 2; s = 2 }

abbrev pub message_one : List ℕ
message_one = 2 ∷ []

pub verify_one : verify_slice toy message_one 0 1 sig_one key_one ≡ returns true
unfolding verify_slice verify_main check out_of_range Sha2.new Sha2.update Sha2.update_range
    Sha2.finalize be
verify_one = refl

verify_slice_sound_example : Accepts toy toy_doc [] message_one 0 1 sig_one key_one
verify_slice_sound_example =
    verify_slice_sound toy toy_doc message_one 0 1 sig_one key_one verify_one

verify_slice_complete_example : verify_slice toy message_one 0 1 sig_one key_one ≡ returns true
verify_slice_complete_example =
    verify_slice_complete toy toy_doc toy_runs message_one 0 1 sig_one key_one (omega arith)
      verify_slice_sound_example

-- A signature of two signers, with the key 2G.
abbrev pub key_two : PubKey toy
key_two = record { p = two }

abbrev pub sig_two : Signature toy
sig_two = record { r = 2; s = 1 }

abbrev pub message_two : List ℕ
message_two = 1 ∷ []

multi_sig_verify_two : multi_sig_verify_slice toy message_two 0 1 sig_two key_two ≡ returns true
unfolding multi_sig_verify_slice multi_sig_verify_main check out_of_range Sha2.new Sha2.update
    Sha2.update_range Sha2.finalize be
multi_sig_verify_two = refl

multi_sig_verify_slice_sound_example :
    Accepts toy toy_doc (0x11 ∷ []) message_two 0 1 sig_two key_two
multi_sig_verify_slice_sound_example =
    multi_sig_verify_slice_sound toy toy_doc message_two 0 1 sig_two key_two multi_sig_verify_two

multi_sig_verify_slice_complete_example :
    multi_sig_verify_slice toy message_two 0 1 sig_two key_two ≡ returns true
multi_sig_verify_slice_complete_example =
    multi_sig_verify_slice_complete toy toy_doc toy_runs message_two 0 1 sig_two key_two
      (omega arith) multi_sig_verify_slice_sound_example

-- The two signers, each with the private key 1 and the secret 1, and the challenge 2.
abbrev pub priv_one : PrivKey toy
priv_one = record { d = 1 }

abbrev pub secret_one : NumberObject toy
secret_one = record { number = some 1; initialized = true }

abbrev pub commit_one : CommitPoint toy
commit_one = record { point = some one; initialized = true }

abbrev pub commit_two : CommitPoint toy
commit_two = record { point = some two; initialized = true }

abbrev pub challenge_two : NumberObject toy
challenge_two = record { number = some 2; initialized = true }

abbrev pub response_two : NumberObject toy
response_two = record { number = some 2; initialized = true }

abbrev pub response_sum : NumberObject toy
response_sum = record { number = some 1; initialized = true }

pub priv_one_range : InRange toy toy_doc 1
priv_one_range = record { nonneg = refl; pos = omega arith; lt = omega arith }

key_made_one : pub_key_of toy priv_one ≡ returns key_one
unfolding pub_key_of
key_made_one = refl

commit_made_one : CommitPoint.of_secret toy secret_one ≡ returns commit_one
unfolding CommitPoint.of_secret CommitPoint.new CommitPoint.set
commit_made_one = refl

response_made_two : Response.of_secret toy secret_one challenge_two priv_one ≡ returns response_two
unfolding Response.of_secret Response.new Response.set number_new
response_made_two = refl

pub Signer-one : Signer toy toy_doc toy_runs challenge_two key_one commit_one response_two
Signer-one = record {
  privkey = priv_one;
  secret = secret_one;
  k = 1;
  key_range = priv_one_range;
  secret_holds = (refl, refl, refl);
  key_made = key_made_one;
  commit_made = commit_made_one;
  response_made = response_made_two;
}

pub keys_two : aggregate_pub_keys toy (key_one ∷ key_one ∷ []) ≡ returns (some key_two)
unfolding aggregate_pub_keys add_pub_keys pub_key_copy
keys_two = refl

pub commits_two : aggregate_commits toy (commit_one ∷ commit_one ∷ []) ≡ returns (some commit_two)
unfolding aggregate_commits add_commits CommitPoint.copy
commits_two = refl

pub challenge_made_two :
    Challenge.of_slice toy commit_two key_two message_two 0 1 ≡ returns challenge_two
unfolding Challenge.of_slice Challenge.new Challenge.set number_new Sha2.new Sha2.update
    Sha2.update_range Sha2.finalize be
challenge_made_two = refl

pub responses_two :
    aggregate_responses toy (response_two ∷ response_two ∷ []) ≡ returns (some response_sum)
unfolding aggregate_responses add_responses Response.copy number_copy
responses_two = refl

pub signed_two : aggregate_sign toy challenge_two response_sum ≡ returns (some sig_two)
unfolding aggregate_sign signature_new
signed_two = refl

multi_sig_correct_example :
    multi_sig_verify_slice toy message_two 0 1 sig_two key_two ≡ returns true
multi_sig_correct_example =
    multi_sig_correct toy toy_doc toy_runs (key_one ∷ key_one ∷ []) (commit_one ∷ commit_one ∷ [])
      (response_two ∷ response_two ∷ []) key_two commit_two challenge_two response_sum sig_two
      message_two 0 1 (Signer-one, (Signer-one, tt)) keys_two commits_two challenge_made_two
      responses_two signed_two (omega arith) (omega arith) (omega arith)

of_slice-IsChallenge_example :
    IsChallenge toy toy_doc challenge_two commit_two key_two message_two 0 1
of_slice-IsChallenge_example =
    of_slice-IsChallenge toy toy_doc challenge_two commit_two key_two message_two 0 1 refl
      challenge_made_two

-- The private and the public key of one signer make `sig_one` with the nonce 1.
abbrev pub sig_blank : Signature toy
sig_blank = record { r = 0; s = 0 }

pub signed_one :
    sign_slice toy message_one 0 1 priv_one key_one 1 sig_blank (1 ∷ [])
    ≡ returns (true, sig_one, [])
unfolding sign_slice sign_loop draw_nonce attempt generate_dsa_nonce fill_bytes round_digest octets
    Sha2.new Sha2.update Sha2.update_range Sha2.finalize be
signed_one = refl

sign_slice-Accepts_example : Accepts toy toy_doc [] message_one 0 1 sig_one key_one
sign_slice-Accepts_example =
    sign_slice-Accepts toy toy_doc message_one 0 1 priv_one key_one refl refl 1 sig_blank (1 ∷ [])
      sig_one [] signed_one

sign_slice-verify_slice_example : verify_slice toy message_one 0 1 sig_one key_one ≡ returns true
sign_slice-verify_slice_example =
    sign_slice-verify_slice toy toy_doc message_one 0 1 priv_one key_one refl refl toy_runs 1
      sig_blank (1 ∷ []) sig_one [] (omega arith) signed_one

aggregate_pub_keys-sum_example :
    two ≡ sum tri_group (map (λ (k : PubKey toy). k.p) (key_one ∷ key_one ∷ []))
aggregate_pub_keys-sum_example =
    aggregate_pub_keys-sum toy toy_doc toy_runs (key_one ∷ key_one ∷ []) key_two keys_two

response_two-Reduced : Reduced toy toy_doc response_two
response_two-Reduced = (2, refl, refl, omega arith)

aggregate_responses-sum_example :
    (multiple_of toy toy_doc response_sum
      ≡ sum tri_group (map (multiple_of toy toy_doc) (response_two ∷ response_two ∷ [])))
    × Reduced toy toy_doc response_sum
aggregate_responses-sum_example =
    aggregate_responses-sum toy toy_doc toy_runs (response_two ∷ response_two ∷ []) response_sum
      (response_two-Reduced, (response_two-Reduced, tt)) responses_two
