-- ===== src/MultiSig/Protocol/Completes.antt =====
-- src/libSchnorr/src/MultiSig.cpp: a run of the protocol reaches a signature and a verdict.
use schnorr.Common.{
  ℕ, ◌+◌, ◌^◌, ◌≤◌, ◌<◌, ◌≡◌, ◌≢◌, refl, sym, ap, ◌∙◌, List, [], ◌∷◌, map, true, false, none, some,
  not, ◌||◌, All, Bool-cases, inl, inr, ◌==◌, arith, length, ltb, add32, ne→==, le→ltb,
}
use schnorr.Run.{
  returns, finish, bad_alloc, return_if-step, return_if-stop, call-step, or_throw-step,
}
use schnorr.OpenSsl.{OpenSsl}
use schnorr.OpenSsl.Laws.{Documented, NeverFails}
use schnorr.OpenSsl.Group.{sum}
use schnorr.Keys.{PubKey, Signature}
use schnorr.Sha2
use schnorr.Sha2.Absorb.{new_lem}
use schnorr.MultiSig.CommitPoint.{CommitPoint}
use schnorr.MultiSig.Challenge
use schnorr.MultiSig.Challenge.{Challenge}
use schnorr.MultiSig.Response.{Response}
use schnorr.MultiSig.Aggregate.{
  aggregate_pub_keys, aggregate_commits, aggregate_responses, aggregate_sign,
}
use schnorr.MultiSig.Sums.{element_at, aggregate_pub_keys-sum, aggregate_commits-sum}
use schnorr.MultiSig.Runs.{
  aggregate_pub_keys-returns, aggregate_commits-returns, aggregate_responses-returns,
  aggregate_sign-returns, HasPoint, HasNumber, IsWhole, IsWholeNumber,
}
use schnorr.MultiSig.ChallengeRuns.{of_slice-returns}
use schnorr.MultiSig.Challenges.{of_slice-IsChallenge}
use schnorr.MultiSig.Correct.{multi_sig_correct}
use schnorr.MultiSig.Protocol.{
  Ready, key_element, commit_element, Keys, Commits, Responses, Keys-sent, Commits-sent,
  Responses-sent, Signers-of, length-Keys, length-Commits, length-Responses,
}
use schnorr.Verify.{check, out_of_range, multi_sig_verify_main, multi_sig_verify_slice}

module _ (o : OpenSsl) (doc : Documented o) (runs : NeverFails o doc.group doc.numbers) where
  open doc use {group, numbers, curve}

  -- What a run of the protocol consists of: what is sent, what is made of it, and the verdict.
  pub record ProtocolRun (xs : List (Ready o doc runs)) (message : List ℕ) (offset size : ℕ)
      : Type 0 where
    pub keys : List (PubKey o)
    pub keys_made : Keys o doc runs xs keys
    pub commits : List (CommitPoint o)
    pub commits_made : Commits o doc runs xs commits
    pub key : PubKey o
    pub key_made : aggregate_pub_keys o keys ≡ returns (some key)
    pub commit : CommitPoint o
    pub commit_made : aggregate_commits o commits ≡ returns (some commit)
    pub challenge : Challenge o
    pub challenge_made : Challenge.of_slice o commit key message offset size ≡ returns challenge
    pub responses : List (Response o)
    pub responses_made : Responses o doc runs challenge xs responses
    pub response : Response o
    pub response_made : aggregate_responses o responses ≡ returns (some response)
    pub sig : Signature o
    pub sig_made : aggregate_sign o challenge response ≡ returns (some sig)
    pub verdict :
        multi_sig_verify_slice o message offset size sig key
        ≡ returns (not (o.bn_is_zero sig.r || o.bn_is_zero sig.s))

  -- A number that is zero is refused by the first or the second test of `check`.
  check_refused :
      (sha2 : Sha2.Sha2 o) (message : List ℕ) (offset size : ℕ) (sig : Signature o) (key : PubKey o)
      → (o.bn_is_zero sig.r || o.bn_is_zero sig.s) ≡ true
      → finish (check o sha2 none message offset size sig key) ≡ returns false
  unfolding check out_of_range
  check_refused sha2 message offset size sig key zero = elim (Bool-cases (out_of_range o sig.r)) [
    | inl out ↦ return_if-stop (out_of_range o sig.r) false _ out
    | inr fits ↦
        return_if-step (out_of_range o sig.r) false _ fits
          (return_if-stop (out_of_range o sig.s) false _ (ground (arith, zero, fits)))
  ]

  main_refused :
      (message : List ℕ) (offset size : ℕ) (sig : Signature o) (key : PubKey o)
      → (o.bn_is_zero sig.r || o.bn_is_zero sig.s) ≡ true
      → multi_sig_verify_main o message offset size sig key ≡ returns false
  unfolding multi_sig_verify_main
  main_refused message offset size sig key zero = call-step (Sha2.new o 256) _ (new_lem o) (
      or_throw-step o.bn_new bad_alloc _ runs.bn_new.1 (
        or_throw-step o.ec_point_new bad_alloc _ runs.point_new.1 (
          or_throw-step o.bn_ctx_new bad_alloc _ runs.bn_ctx_new.1
            (check_refused _ message offset size sig key zero))))

  module _ (message : List ℕ) (offset size : ℕ) (sig : Signature o) (key : PubKey o)
      (pos : 0 < length message) (inside : offset + size ≤ length message)
      (small : offset + size < 2 ^ 32) where
    zero_refused :
        (o.bn_is_zero sig.r || o.bn_is_zero sig.s) ≡ true
        → multi_sig_verify_slice o message offset size sig key ≡ returns false
    unfolding multi_sig_verify_slice
    zero_refused zero = return_if-step (length message == 0) _ _ (ne→== _ 0 (omega arith)) (
        return_if-step (ltb (length message) (add32 offset size)) _ _ (le→ltb _ _ (omega arith))
          (rw (main_refused message offset size sig key zero)))

    verdict_lem :
        (numbers.value sig.r ≢ 0
          → numbers.value sig.s ≢ 0
          → multi_sig_verify_slice o message offset size sig key ≡ returns true)
        → multi_sig_verify_slice o message offset size sig key
          ≡ returns (not (o.bn_is_zero sig.r || o.bn_is_zero sig.s))
    verdict_lem accepts =
        let r = numbers.is_zero_lem sig.r in
        let s = numbers.is_zero_lem sig.s in
        elim (Bool-cases (o.bn_is_zero sig.r || o.bn_is_zero sig.s)) [
          | inl zero ↦ zero_refused zero ∙ ap (λ b. returns (not b)) (sym zero)
          | inr none_zero ↦
              accepts (ground (arith, none_zero, r)) (ground (arith, none_zero, s))
              ∙ ap (λ b. returns (not b)) (sym none_zero)
        ]

  aggregated-Keys :
      (x : Ready o doc runs) (xs : List (Ready o doc runs)) (ks : List (PubKey o))
      → length (x ∷ xs) < 2 ^ 32
      → Keys o doc runs (x ∷ xs) ks
      → (key : PubKey o) × (aggregate_pub_keys o ks ≡ returns (some key))
  aggregated-Keys x xs [] few made = absurd made
  aggregated-Keys x xs (k ∷ ks) few made =
      aggregate_pub_keys-returns o doc runs k ks
        (let same = length-Keys o doc runs (x ∷ xs) (k ∷ ks) made in omega (arith, same))

  aggregated-Commits :
      (x : Ready o doc runs) (xs : List (Ready o doc runs)) (cs : List (CommitPoint o))
      → length (x ∷ xs) < 2 ^ 32
      → Commits o doc runs (x ∷ xs) cs
      → All (HasPoint o doc runs) cs
      → (commit : CommitPoint o) × (aggregate_commits o cs ≡ returns (some commit))
        × IsWhole o doc runs commit
  aggregated-Commits x xs [] few made have = absurd made
  aggregated-Commits x xs (c ∷ cs) few made have =
      aggregate_commits-returns o doc runs c cs
        (let same = length-Commits o doc runs (x ∷ xs) (c ∷ cs) made in omega (arith, same)) have

  aggregated-Responses :
      (challenge : Challenge o) (x : Ready o doc runs) (xs : List (Ready o doc runs))
      (rs : List (Response o))
      → length (x ∷ xs) < 2 ^ 32
      → Responses o doc runs challenge (x ∷ xs) rs
      → All (HasNumber o doc runs) rs
      → (response : Response o) × (aggregate_responses o rs ≡ returns (some response))
        × IsWholeNumber o doc runs response
  aggregated-Responses challenge x xs [] few made have = absurd made
  aggregated-Responses challenge x xs (r ∷ rs) few made have =
      aggregate_responses-returns o doc runs r rs
        (let same = length-Responses o doc runs challenge (x ∷ xs) (r ∷ rs) made in
          omega (arith, same))
        have

  -- A run of the protocol ends with a signature and a verdict: for at least one signer and fewer than
  -- 2^32, each with a private key in [1, …, order - 1] and an initialized secret, where the sum of the keys and the sum of
  -- the commitments are not the neutral element, the message is not empty, the slice lies inside it and
  -- its end fits an `unsigned int`, and where no call of OpenSSL fails, the keys, commitments, challenge
  -- and responses can be made, `AggregatePubKeys`, `AggregateCommits`, `AggregateResponses` and
  -- `AggregateSign` give results, and `MultiSigVerify` returns true unless a number of the
  -- signature is zero, where it returns false.
  pub protocol_run :
      (x : Ready o doc runs) (xs : List (Ready o doc runs)) (message : List ℕ) (offset size : ℕ)
      → sum group (map (key_element o doc runs) (x ∷ xs)) ≢ group.identity
      → sum group (map (commit_element o doc runs) (x ∷ xs)) ≢ group.identity
      → length (x ∷ xs) < 2 ^ 32
      → 0 < length message
      → offset + size ≤ length message
      → offset + size < 2 ^ 32
      → ProtocolRun (x ∷ xs) message offset size
  protocol_run x xs message offset size keys_finite commits_finite few pos inside small =
      let all = x ∷ xs in
      let (keys, keys_made, keys_sum) = Keys-sent o doc runs all in
      let (commits, commits_made, have, commits_sum) = Commits-sent o doc runs all in
      let (key, key_made) = aggregated-Keys x xs keys few keys_made in
      let (commit, commit_made, (commit_init, (p, p_eq))) =
        aggregated-Commits x xs commits few commits_made have in
      let key_total = aggregate_pub_keys-sum o doc runs keys key key_made in
      let commit_total = aggregate_commits-sum o doc runs commits commit commit_made in
      let (c, challenge_made) =
        of_slice-returns o doc runs commit key message offset size p commit_init p_eq
          (λ e.
            commits_finite (sym commits_sum ∙ sym commit_total ∙ ap (element_at o doc) p_eq ∙ e))
          (λ e. keys_finite (sym keys_sum ∙ sym key_total ∙ e)) pos inside small in
      let challenge : Challenge o = record { number = some c; initialized = true } in
      let t =
        of_slice-IsChallenge o doc challenge commit key message offset size refl challenge_made in
      let (responses, responses_made, numbers_have) =
        Responses-sent o doc runs challenge t.number all (refl, t.held, t.nonneg) in
      let (response, response_made, (response_init, response_has)) =
        aggregated-Responses challenge x xs responses few responses_made numbers_have in
      let (sig, sig_made) =
        aggregate_sign-returns o doc runs challenge response refl response_init (c, refl)
          response_has in
      record {
        keys = keys;
        keys_made = keys_made;
        commits = commits;
        commits_made = commits_made;
        key = key;
        key_made = key_made;
        commit = commit;
        commit_made = commit_made;
        challenge = challenge;
        challenge_made = challenge_made;
        responses = responses;
        responses_made = responses_made;
        response = response;
        response_made = response_made;
        sig = sig;
        sig_made = sig_made;
        verdict = verdict_lem message offset size sig key pos inside small (λ r_ne s_ne.
            multi_sig_correct o doc runs keys commits responses key commit challenge response sig
              message offset size
              (Signers-of o doc runs challenge all keys commits responses keys_made commits_made
                responses_made)
              key_made commit_made challenge_made response_made sig_made r_ne s_ne small);
      }
