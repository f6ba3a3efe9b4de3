-- ===== src/MultiSig/Honest.antt =====
-- The response of an honest signer, as src/libSchnorr/src/MultiSig_Response.cpp makes it, and `MultiSig::VerifyResponse`.
use schnorr.Common.{Bool, ◌≡◌, refl, sym, ap, ◌∙◌, true, false, not, arith}
use schnorr.Run.{returns, returns-injective}
use schnorr.OpenSsl.{OpenSsl}
use schnorr.OpenSsl.Laws.{Documented, NeverFails}
use schnorr.Keys.{PubKey}
use schnorr.MultiSig.CommitPoint.{CommitPoint}
use schnorr.MultiSig.Challenge.{Challenge}
use schnorr.MultiSig.Response.{Response}
use schnorr.MultiSig.Signer.{HoldsNumber}
use schnorr.MultiSig.Signers.{Signer, signer_lem, Signer-objects}
use schnorr.MultiSig.Answers.{verify_response-Answers, verify_response-returns}
use schnorr.MultiSig.Aggregate.{verify_response}

decided : (b zero : Bool) → (b ≡ true → zero ≡ false) → (zero ≡ false → b ≡ true) → b ≡ not zero
decided true true h k = cc (h refl)
decided true false h k = refl
decided false true h k = refl
decided false false h k = cc (k refl)

module _ (o : OpenSsl) (doc : Documented o) (runs : NeverFails o doc.group doc.numbers) where
  open doc use {group, numbers, curve}

  -- The response that a signer makes of a private key in [1, …, order - 1] and an initialized secret, for
  -- an initialized challenge whose number is not negative, is initialized, and `VerifyResponse` returns
  -- `true` for it, the signer's key and commitment and that challenge, unless its number is zero, where
  -- it returns `false`. No call of OpenSSL is supposed to fail.
  pub honest_passes :
      (challenge : Challenge o) (c : o.Bignum) (key : PubKey o) (commit : CommitPoint o)
      (response : Response o)
      → HoldsNumber o doc runs challenge c
      → Signer o doc runs challenge key commit response
      → (s : o.Bignum) × HoldsNumber o doc runs response s
        × (verify_response o response challenge key commit ≡ returns (not (o.bn_is_zero s)))
  honest_passes challenge c key commit response holds t =
      let (rebuilt, _) = signer_lem o doc runs challenge c holds key commit response t in
      let (s, p, r_holds, lt, p_init, p_held) =
        Signer-objects o doc runs challenge c holds key commit response t in
      let answers =
        verify_response-Answers o doc runs response challenge key commit s c p r_holds holds p_init
          p_held in
      let (b, result) =
        verify_response-returns o doc runs response challenge key commit s c p r_holds holds p_init
          p_held in
      let sum = rw (r_holds.1, p_held) at rebuilt in
      let same =
        decided b (o.bn_is_zero s)
          (λ e. ground (arith, numbers.is_zero_lem s, (answers.0 (result ∙ ap returns e)).0))
          (λ e.
            returns-injective
              (sym result ∙ answers.1 (ground (arith, numbers.is_zero_lem s, e), lt, sum))) in
      (s, r_holds, result ∙ ap returns same)
