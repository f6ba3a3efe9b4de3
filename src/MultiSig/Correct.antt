-- ===== src/MultiSig/Correct.antt =====
-- The exchange between signers, aggregator and verifier: src/libSchnorr/src/MultiSig.cpp and the classes it uses.
use mathlib.Core.Path.{ap₂}
use schnorr.Common.{
  ℕ, ◌+◌, ◌^◌, ◌%◌, ◌<◌, ◌≡◌, ◌≢◌, sym, ap, ◌∙◌, List, [], ◌∷◌, true, Option, none, some, not,
  arith,
}
use schnorr.Run.{
  returns, return_if-returns, call-returns, or_return-returns, deref-returns, returns-injective,
}
use schnorr.OpenSsl.{OpenSsl}
use schnorr.OpenSsl.Laws.{Documented, NeverFails, times}
use schnorr.Keys.{PubKey, Signature, signature_new}
use schnorr.MultiSig.CommitPoint.{CommitPoint}
use schnorr.MultiSig.Challenge
use schnorr.MultiSig.Challenge.{Challenge}
use schnorr.MultiSig.Response.{Response}
use schnorr.MultiSig.Aggregate.{
  aggregate_pub_keys, aggregate_commits, aggregate_responses, aggregate_sign,
}
use schnorr.MultiSig.Sums.{
  element_of, multiple_of, Reduced, aggregate_pub_keys-sum, aggregate_commits-sum,
  aggregate_responses-sum,
}
use schnorr.MultiSig.Challenges.{IsChallenge, of_slice-IsChallenge}
use schnorr.MultiSig.Sums.{element_at, multiple_at}
use schnorr.Common.Bytes.{be}
use schnorr.Common.{slice}
use schnorr.Verify.Accepts.{transcript, commitment_of, Accepts}
use schnorr.Verify.Complete.{multi_sig_verify_slice_complete}
use schnorr.Verify.{multi_sig_verify_slice}
use native.Mathlib.Nat.{mod-lt}
use mathlib.Core.Option.{some-injective}
use schnorr.MultiSig.Answering.{Answering, Answering-sum}
use schnorr.MultiSig.Signers.{Signers, Signers-Answering}

module _ (o : OpenSsl) (doc : Documented o) (runs : NeverFails o doc.group doc.numbers) where
  open doc use {group, numbers, curve, hash}

  -- What `AggregateSign` copies.
  abbrev pub IsCopy : o.Bignum → Option o.Bignum → Type 0
  IsCopy copy source =
      (n : o.Bignum) × (source ≡ some n)
      × (numbers.value copy ≡ numbers.value n)
      × (o.bn_is_negative copy ≡ o.bn_is_negative n)

  is_copy :
      (x y n : o.Bignum) (source : Option o.Bignum)
      → source ≡ some n
      → o.bn_copy n ≡ some x
      → x ≡ y
      → IsCopy y source
  is_copy x y n source held copied same =
      let (value, sign) = numbers.copy_lem n x copied in
      (n, held, rw (← same) value, rw (← same) sign)

  none≢some : (sig : Signature o) → ¬ (◌≡◌ {A = Option (Signature o)} none (some sig))
  none≢some sig e = cc

  -- Where `AggregateSign` gives a signature, the challenge and the response were initialized, and its
  -- numbers have the values and signs of the challenge's and the response's, which are there.
  pub aggregate_sign_lem :
      (challenge : Challenge o) (response : Response o) (sig : Signature o)
      → aggregate_sign o challenge response ≡ returns (some sig)
      → (challenge.initialized ≡ true)
        × (response.initialized ≡ true)
        × IsCopy sig.r challenge.number
        × IsCopy sig.s response.number
  unfolding aggregate_sign
  aggregate_sign_lem challenge response sig h =
      let ne = none≢some sig in
      let (c_init, h1) = return_if-returns (not challenge.initialized) none _ (some sig) ne h in
      let (r_init, h2) = return_if-returns (not response.initialized) none _ (some sig) ne h1 in
      let (new, _, h3) = call-returns (signature_new o) _ (some sig) h2 in
      let (c, c_eq, h4) = deref-returns challenge.number _ (some sig) h3 in
      let (r, r_copy, h5) = or_return-returns (o.bn_copy c) none _ (some sig) ne h4 in
      let (n, n_eq, h6) = deref-returns response.number _ (some sig) h5 in
      let (s, s_copy, h7) = or_return-returns (o.bn_copy n) none _ (some sig) ne h6 in
      let made : Signature o = record { r = r; s = s } in
      let same : made ≡ sig = some-injective made sig (returns-injective h7) in
      (
        ground (arith, c_init),
        ground (arith, r_init),
        is_copy r sig.r c challenge.number c_eq r_copy (ap (λ (x : Signature o). x.r) same),
        is_copy s sig.s n response.number n_eq s_copy (ap (λ (x : Signature o). x.s) same),
      )

  -- The number that a copy was made of is the one that is known to be there.
  copy_of :
      (copy n : o.Bignum) (source : Option o.Bignum)
      → IsCopy copy source
      → source ≡ some n
      → (numbers.value copy ≡ numbers.value n) × (o.bn_is_negative copy ≡ o.bn_is_negative n)
  copy_of copy n source (m, held, value, sign) e =
      let same : m ≡ n = some-injective _ _ (sym held ∙ e) in
      (value ∙ ap numbers.value same, sign ∙ ap o.bn_is_negative same)

  accepted :
      (key : PubKey o) (commit : CommitPoint o) (challenge : Challenge o) (response : Response o)
      (sig : Signature o) (message : List ℕ) (offset size : ℕ)
      (t : IsChallenge o doc challenge commit key message offset size)
      → IsCopy sig.r challenge.number
      → IsCopy sig.s response.number
      → Reduced o doc response
      → group.add
          (multiple_of o doc response)
          (times group (numbers.value t.number) (curve.element key.p))
        ≡ element_of o doc commit
      → numbers.value sig.r ≢ 0
      → numbers.value sig.s ≢ 0
      → Accepts o doc (0x11 ∷ []) message offset size sig key
  accepted key commit challenge response sig message offset size t r_copy s_copy
        (n, n_eq, n_nonneg, n_lt) rebuilt r_ne s_ne =
      let (r_value, r_sign) = copy_of sig.r t.number challenge.number r_copy t.held in
      let (s_value, s_sign) = copy_of sig.s n response.number s_copy n_eq in
      let commitment : commitment_of o doc sig key ≡ curve.element t.point =
        ap₂ (λ a b. group.add (times group a group.generator) (times group b (curve.element key.p)))
          s_value r_value
        ∙ ap
            (λ x.
              group.add (multiple_at o doc x)
                (times group (numbers.value t.number) (curve.element key.p)))
            (sym n_eq)
        ∙ rebuilt
        ∙ ap (element_at o doc) t.committed in
      let pos : 0 < numbers.order = omega (arith, numbers.one_lt_order) in
      record {
        message_pos = t.message_pos;
        inside = t.inside;
        r_range = record {
          nonneg = r_sign ∙ t.nonneg;
          pos = omega arith;
          lt = rw (r_value, t.value) (mod-lt _ pos);
        };
        s_range = record { nonneg = s_sign ∙ n_nonneg; pos = omega arith; lt = rw s_value n_lt };
        commitment_finite = λ e. t.commitment_finite (sym commitment ∙ e);
        key_finite = t.key_finite;
        challenge =
            r_value
            ∙ t.value
            ∙ ap
                (λ e.
                  be (
                    hash.digest (
                      transcript o doc (0x11 ∷ []) e (curve.element key.p)
                        (slice message offset size)))
                  % numbers.order)
                (sym commitment);
      }

  -- What is made of responses that answer the challenge is accepted.
  pub answers_accepted :
      (ps : List (PubKey o)) (qs : List (CommitPoint o)) (rs : List (Response o)) (key : PubKey o)
      (commit : CommitPoint o) (challenge : Challenge o) (response : Response o) (sig : Signature o)
      (message : List ℕ) (offset size : ℕ)
      (t : IsChallenge o doc challenge commit key message offset size)
      → Answering o doc t.number ps qs rs
      → aggregate_pub_keys o ps ≡ returns (some key)
      → aggregate_commits o qs ≡ returns (some commit)
      → aggregate_responses o rs ≡ returns (some response)
      → aggregate_sign o challenge response ≡ returns (some sig)
      → numbers.value sig.r ≢ 0
      → numbers.value sig.s ≢ 0
      → offset + size < 2 ^ 32
      → multi_sig_verify_slice o message offset size sig key ≡ returns true
  answers_accepted ps qs rs key commit challenge response sig message offset size t answers key_eq
        commit_eq response_eq sign_eq r_ne s_ne small =
      let (_, _, r_copy, s_copy) = aggregate_sign_lem challenge response sig sign_eq in
      let (both, all) = Answering-sum o doc t.number ps qs rs answers in
      let (total, reduced) = aggregate_responses-sum o doc runs rs response all response_eq in
      let key_sum = aggregate_pub_keys-sum o doc runs ps key key_eq in
      let commit_sum = aggregate_commits-sum o doc runs qs commit commit_eq in
      multi_sig_verify_slice_complete o doc runs message offset size sig key small (
        accepted key commit challenge response sig message offset size t r_copy s_copy reduced
          (rw (total, key_sum) (both ∙ sym commit_sum)) r_ne s_ne)

  -- Signers whose keys are in range and whose secrets are initialized send keys, commitments and
  -- responses. Where the aggregated key, commitment, challenge, response and signature are made from
  -- these by `AggregatePubKeys`, `AggregateCommits`, `Challenge`, `AggregateResponses` and
  -- `AggregateSign`, and the two numbers of the signature are not zero, `MultiSigVerify` accepts the
  -- signature of the slice under the aggregated key, where no call of OpenSSL fails and the end of
  -- the slice fits an `unsigned int`.
  pub multi_sig_correct :
      (ps : List (PubKey o)) (qs : List (CommitPoint o)) (rs : List (Response o)) (key : PubKey o)
      (commit : CommitPoint o) (challenge : Challenge o) (response : Response o) (sig : Signature o)
      (message : List ℕ) (offset size : ℕ)
      → Signers o doc runs challenge ps qs rs
      → aggregate_pub_keys o ps ≡ returns (some key)
      → aggregate_commits o qs ≡ returns (some commit)
      → Challenge.of_slice o commit key message offset size ≡ returns challenge
      → aggregate_responses o rs ≡ returns (some response)
      → aggregate_sign o challenge response ≡ returns (some sig)
      → numbers.value sig.r ≢ 0
      → numbers.value sig.s ≢ 0
      → offset + size < 2 ^ 32
      → multi_sig_verify_slice o message offset size sig key ≡ returns true
  multi_sig_correct ps qs rs key commit challenge response sig message offset size signers key_eq
        commit_eq challenge_eq response_eq sign_eq r_ne s_ne small =
      let (c_init, _, _, _) = aggregate_sign_lem challenge response sig sign_eq in
      let t =
        of_slice-IsChallenge o doc challenge commit key message offset size c_init challenge_eq in
      answers_accepted ps qs rs key commit challenge response sig message offset size t
        (Signers-Answering o doc runs challenge t.number (c_init, t.held, t.nonneg) ps qs rs
          signers)
        key_eq commit_eq response_eq sign_eq r_ne s_ne small
