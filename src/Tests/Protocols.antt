-- ===== src/Tests/Protocols.antt =====
-- The theorems on whole runs, on the family of classes and on the life of objects, at the small library.
use schnorr.Common.{
  slice, Bool, ℕ, ◌+◌, ◌%◌, ◌≡◌, ◌≢◌, refl, List, [], ◌∷◌, true, false, some, length, max, arith,
  ◌==◌,
}
use schnorr.Run.{returns}
use schnorr.Common.Bytes.{be}
use schnorr.Sha2
use schnorr.MultiSig.Objects.{NumberObject, number_new}
use schnorr.MultiSig.CommitPointHash
use schnorr.MultiSig.Challenge
use schnorr.MultiSig.CommitSecret
use schnorr.MultiSig.Response
use schnorr.MultiSig.Aggregate.{verify_response}
use schnorr.MultiSig.Reached.Answers.{verify_response-result}
use schnorr.MultiSig.Protocol.{Ready}
use schnorr.MultiSig.Protocol.Completes.{ProtocolRun, protocol_run}
use schnorr.MultiSig.Domains.{point_transcript, of_point-eq}
use schnorr.MultiSig.Separation.{IsHash, domains-separate}
use schnorr.MultiSig.Reached.{Reached, Invariant}
use schnorr.MultiSig.Reached.Safety.{Reached-Invariant}
use schnorr.Serializable.Classes.{Object, serializable, IsEqual, deserialize-serialize}
use schnorr.Serializable.Classes
use schnorr.Verify.Accepts.{transcript, commitment_of}
use schnorr.Tests.Toy.{toy, toy_doc, toy_runs, toy_hash, neutral, one, two}
use schnorr.Tests.Examples.{
  priv_one, priv_one_range, secret_one, message_two, key_one, key_two, commit_one, commit_two,
  challenge_two, response_two, sig_one, message_one, challenge_made_two, verify_one,
}

abbrev ready_one : Ready toy toy_doc toy_runs
ready_one = record {
  privkey = priv_one;
  secret = secret_one;
  k = 1;
  key_range = priv_one_range;
  secret_holds = (refl, refl, refl);
}

two_ne : two ≢ neutral
two_ne e = cc

-- Two signers.
protocol_run_example : ProtocolRun toy toy_doc toy_runs (ready_one ∷ ready_one ∷ []) message_two 0 1
protocol_run_example =
    protocol_run toy toy_doc toy_runs ready_one (ready_one ∷ []) message_two 0 1 two_ne two_ne
      (omega arith) (omega arith) (omega arith) (omega arith)

abbrev point_hash_one : NumberObject toy
point_hash_one = record { number = some 1; initialized = true }

point_hashed : CommitPointHash.of_point toy commit_one ≡ returns point_hash_one
unfolding CommitPointHash.of_point CommitPointHash.new CommitPointHash.set number_new Sha2.new
    Sha2.update Sha2.finalize be
point_hashed = refl

-- The inputs at the small library: the hash of a commitment, the challenge of two signers, and the
-- signature of one.
abbrev hashed_point : List ℕ
hashed_point = point_transcript toy toy_doc one

abbrev hashed_challenge : List ℕ
hashed_challenge = transcript toy toy_doc (0x11 ∷ []) two two (slice message_two 0 1)

abbrev hashed_signed : List ℕ
hashed_signed =
    transcript toy toy_doc [] (commitment_of toy toy_doc sig_one key_one) one
      (slice message_one 0 1)

domains-separate_example :
    IsHash toy toy_doc (some 1) hashed_point
    × IsHash toy toy_doc challenge_two.number hashed_challenge
    × IsHash toy toy_doc (some sig_one.r) hashed_signed
    × (hashed_point ≢ hashed_challenge)
    × (hashed_point ≢ hashed_signed)
    × (hashed_challenge ≢ hashed_signed)
domains-separate_example =
    domains-separate toy toy_doc point_hash_one commit_one challenge_two commit_two key_two
      message_two 0 1 sig_one key_one message_one 0 1 refl point_hashed refl challenge_made_two
      verify_one

of_point-eq_example :
    CommitPointHash.eq toy point_hash_one point_hash_one
    ≡ returns (
        be (toy_hash.digest (point_transcript toy toy_doc one)) % 3
        == be (toy_hash.digest (point_transcript toy toy_doc one)) % 3)
of_point-eq_example =
    of_point-eq toy toy_doc point_hash_one point_hash_one commit_one commit_one one one refl refl
      refl refl point_hashed point_hashed

-- A challenge that is created and then set.
challenge_blank : number_new toy ≡ returns (record { number = some 0; initialized = false })
unfolding number_new
challenge_blank = refl

challenge_set_two :
    Challenge.set toy
      (record { number = some 0; initialized = false })
      commit_two
      key_two
      message_two
      0
      1
    ≡ returns challenge_two
unfolding Challenge.set Sha2.new Sha2.update Sha2.update_range Sha2.finalize be
challenge_set_two = refl

challenge_two-Reached : Reached toy challenge_two
challenge_two-Reached =
    Reached.challenge_set _ challenge_two commit_two key_two message_two 0 1
      (Reached.created _ challenge_blank) challenge_set_two

Reached-Invariant_example : Invariant toy challenge_two
Reached-Invariant_example = Reached-Invariant toy challenge_two challenge_two-Reached

deserialize-serialize_example :
    (dst : List ℕ) × (read : NumberObject toy) × ((serializable toy Classes.challenge).serialize
        challenge_two
        (9 ∷ [])
        1
      ≡ returns (dst, true))
    × (length dst ≡ max 1 (1 + 32))
    × ((serializable toy Classes.challenge).deserialize secret_one dst 1 ≡ returns (read, true))
    × IsEqual toy toy_doc toy_runs Classes.challenge read challenge_two
deserialize-serialize_example =
    deserialize-serialize toy toy_doc toy_runs Classes.challenge challenge_two secret_one (9 ∷ []) 1
      (2, (refl, refl, refl), omega arith) (omega arith)

-- A secret that is drawn, and a response that is created and then set.
secret_drawn : CommitSecret.generate toy 1 (1 ∷ []) ≡ returns (secret_one, [])
unfolding CommitSecret.generate CommitSecret.draw
secret_drawn = refl

response_set_two :
    Response.set toy
      (record { number = some 0; initialized = false })
      secret_one
      challenge_two
      priv_one
    ≡ returns response_two
unfolding Response.set
response_set_two = refl

response_two-Reached : Reached toy response_two
response_two-Reached =
    Reached.response_set _ response_two secret_one challenge_two priv_one
      (Reached.created _ challenge_blank) (Reached.generated 1 (1 ∷ []) [] secret_one secret_drawn)
      challenge_two-Reached response_set_two

verify_response-result_example :
    (b : Bool) × (verify_response toy response_two challenge_two key_one commit_one ≡ returns b)
verify_response-result_example =
    verify_response-result toy response_two challenge_two key_one commit_one one refl
      response_two-Reached challenge_two-Reached
