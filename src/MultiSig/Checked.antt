-- ===== src/MultiSig/Checked.antt =====
-- What the aggregator of a multisignature checks with `VerifyResponse`, src/libSchnorr/src/MultiSig.cpp, and what is made
-- of the responses that pass.
use schnorr.Common.{ℕ, ◌+◌, ◌^◌, ◌<◌, ◌≡◌, ◌≢◌, List, [], ◌∷◌, true, false, some}
use schnorr.Run.{returns}
use schnorr.OpenSsl.{OpenSsl}
use schnorr.OpenSsl.Laws.{Documented, NeverFails}
use schnorr.Keys.{PubKey, Signature}
use schnorr.MultiSig.CommitPoint.{CommitPoint}
use schnorr.MultiSig.Challenge
use schnorr.MultiSig.Challenge.{Challenge}
use schnorr.MultiSig.Response.{Response}
use schnorr.MultiSig.Signer.{HoldsNumber}
use schnorr.MultiSig.Challenges.{of_slice-IsChallenge}
use schnorr.MultiSig.Answering.{Answering, AnswersTo}
use schnorr.MultiSig.Answers.{verify_response-Passed, verify_response-Answers}
use schnorr.MultiSig.Aggregate.{
  aggregate_pub_keys, aggregate_commits, aggregate_responses, aggregate_sign, verify_response,
}
use schnorr.MultiSig.Correct.{answers_accepted, aggregate_sign_lem}
use schnorr.Verify.{multi_sig_verify_slice}

module _ (o : OpenSsl) (doc : Documented o) (runs : NeverFails o doc.group doc.numbers) where
  open doc use {group, numbers, curve}

  -- A number that `Deserialize` reads is not negative.
  abbrev pub NotNegative : Response o → Type 0
  NotNegative response = (n : o.Bignum) → response.number ≡ some n → o.bn_is_negative n ≡ false

  -- The response passes `VerifyResponse` for the key and the commitment of its sender, whoever made them.
  abbrev pub Checked : Challenge o → PubKey o → CommitPoint o → Response o → Type 0
  Checked challenge key commit response =
      NotNegative response × (verify_response o response challenge key commit ≡ returns true)

  -- The same of lists, position by position.
  abbrev pub AllChecked :
      Challenge o → List (PubKey o) → List (CommitPoint o) → List (Response o) → Type 0
  AllChecked challenge [] [] [] = Unit
  AllChecked challenge (p ∷ ps) (q ∷ qs) (r ∷ rs) =
      Checked challenge p q r × AllChecked challenge ps qs rs
  AllChecked challenge _ _ _ = ⊥

  module _ (challenge : Challenge o) (c : o.Bignum)
      (holds : HoldsNumber o doc runs challenge c) where
    pub Checked-AnswersTo :
        (key : PubKey o) (commit : CommitPoint o) (response : Response o)
        → Checked challenge key commit response
        → AnswersTo o doc c key commit response
    Checked-AnswersTo key commit response (nonneg, passes) =
        let t = verify_response-Passed o doc runs response challenge key commit passes in
        let sign = nonneg t.response_number t.response_held in
        let (_, lt, rebuilt) =
          (verify_response-Answers o doc runs response challenge key commit t.response_number c
              t.point (t.response_initialized, t.response_held, sign) holds t.commit_initialized
              t.committed).0
            passes in
        (rw (t.response_held, t.committed) rebuilt, (t.response_number, t.response_held, sign, lt))

    pub AllChecked-Answering :
        (ps : List (PubKey o)) (qs : List (CommitPoint o)) (rs : List (Response o))
        → AllChecked challenge ps qs rs
        → Answering o doc c ps qs rs
    AllChecked-Answering [] [] [] t = tt
    AllChecked-Answering (p ∷ ps) (q ∷ qs) (r ∷ rs) (t, ts) =
        (Checked-AnswersTo p q r t, AllChecked-Answering ps qs rs ts)
    AllChecked-Answering _ _ _ t = absurd t

  -- Responses that pass `VerifyResponse`, each for the key and the commitment at its position, and that
  -- hold no negative numbers, are enough, whoever made the keys, the commitments and the responses:
  -- where the aggregated key, commitment, challenge, response and signature are made from them by
  -- `AggregatePubKeys`, `AggregateCommits`, `Challenge`, `AggregateResponses` and `AggregateSign`, and
  -- the two numbers of the signature are not zero, `MultiSigVerify` accepts the signature of the slice
  -- under the aggregated key, where no call of OpenSSL fails and the end of the slice fits an
  -- `unsigned int`.
  pub checked_accepted :
      (ps : List (PubKey o)) (qs : List (CommitPoint o)) (rs : List (Response o)) (key : PubKey o)
      (commit : CommitPoint o) (challenge : Challenge o) (response : Response o) (sig : Signature o)
      (message : List ℕ) (offset size : ℕ)
      → AllChecked challenge ps qs rs
      → aggregate_pub_keys o ps ≡ returns (some key)
      → aggregate_commits o qs ≡ returns (some commit)
      → Challenge.of_slice o commit key message offset size ≡ returns challenge
      → aggregate_responses o rs ≡ returns (some response)
      → aggregate_sign o challenge response ≡ returns (some sig)
      → numbers.value sig.r ≢ 0
      → numbers.value sig.s ≢ 0
      → offset + size < 2 ^ 32
      → multi_sig_verify_slice o message offset size sig key ≡ returns true
  checked_accepted ps qs rs key commit challenge response sig message offset size checked key_eq
        commit_eq challenge_eq response_eq sign_eq r_ne s_ne small =
      let (c_init, _, _, _) = aggregate_sign_lem o doc runs challenge response sig sign_eq in
      let t =
        of_slice-IsChallenge o doc challenge commit key message offset size c_init challenge_eq in
      answers_accepted o doc runs ps qs rs key commit challenge response sig message offset size t
        (AllChecked-Answering challenge t.number (c_init, t.held, t.nonneg) ps qs rs checked) key_eq
        commit_eq response_eq sign_eq r_ne s_ne small
