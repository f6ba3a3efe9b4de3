-- ===== src/MultiSig/Signers.antt =====
-- What the signers of a multisignature send, src/libSchnorr/src/Schnorr_PubKey.cpp, MultiSig_CommitPoint.cpp and
-- MultiSig_Response.cpp, and its sums.
use schnorr.Common.{true, some, ◌*◌, ◌<◌, ◌≡◌, refl, sym, ◌∙◌, List, [], ◌∷◌, arith}
use schnorr.Run.{returns, returns-injective}
use schnorr.OpenSsl.{OpenSsl}
use schnorr.OpenSsl.Laws.{Documented, NeverFails}
use schnorr.OpenSsl.Group
use schnorr.OpenSsl.Group.{sum}
use schnorr.Keys.{PrivKey, PubKey, pub_key_of}
use schnorr.MultiSig.CommitSecret.{CommitSecret}
use schnorr.MultiSig.CommitPoint
use schnorr.MultiSig.CommitPoint.{CommitPoint}
use schnorr.MultiSig.Challenge.{Challenge}
use schnorr.MultiSig.Response
use schnorr.MultiSig.Response.{Response}
use schnorr.MultiSig.Signer.{
  HoldsNumber, pub_key_of-element, of_secret-element, of_secret-returns, response_lem,
}
use schnorr.MultiSig.Answering.{Answering, AnswersTo}
use schnorr.Verify.Accepts.{InRange}
use native.Mathlib.Nat.{mod-lt, mod-eq_of_lt}

module _ (o : OpenSsl) (doc : Documented o) (runs : NeverFails o doc.group doc.numbers) where
  open doc use {group, numbers, curve, hash}

  -- One signer's key, commitment and response, made by the constructors from a private key in
  -- [1, …, order - 1] and an initialized secret.
  pub record Signer (challenge : Challenge o) (key : PubKey o) (commit : CommitPoint o)
      (response : Response o) : Type 0 where
    pub privkey : PrivKey o
    pub secret : CommitSecret o
    pub k : o.Bignum
    pub key_range : InRange o doc privkey.d
    pub secret_holds : HoldsNumber o doc runs secret k
    pub key_made : pub_key_of o privkey ≡ returns key
    pub commit_made : CommitPoint.of_secret o secret ≡ returns commit
    pub response_made : Response.of_secret o secret challenge privkey ≡ returns response

  -- The lists that the aggregator receives, position by position.
  abbrev pub Signers :
      Challenge o → List (PubKey o) → List (CommitPoint o) → List (Response o) → Type 0
  Signers challenge [] [] [] = Unit
  Signers challenge (p ∷ ps) (q ∷ qs) (r ∷ rs) = Signer challenge p q r × Signers challenge ps qs rs
  Signers challenge _ _ _ = ⊥

  module _ (challenge : Challenge o) (c : o.Bignum)
      (holds : HoldsNumber o doc runs challenge c) where
    -- One response: sG + c * key is the commitment.
    pub signer_lem :
        (key : PubKey o) (commit : CommitPoint o) (response : Response o)
        → Signer challenge key commit response
        → AnswersTo o doc c key commit response
    signer_lem key commit response t =
        let pos : 0 < numbers.order = omega (arith, numbers.one_lt_order) in
        let (s, made, value, nonneg) =
          response_lem o doc runs t.secret t.k challenge c t.privkey t.secret_holds holds
            t.key_range.nonneg in
        let same = returns-injective (sym made ∙ t.response_made) in
        let element = pub_key_of-element o doc runs t.privkey key t.key_range t.key_made in
        let (committed, _) =
          of_secret-element o doc runs t.secret t.k commit t.secret_holds t.commit_made in
        let d = numbers.value t.privkey.d in
        let once = mod-eq_of_lt (mod-lt (numbers.value c * d) pos) in
        (
          rw (← same, element, committed, value, once)
              (Group.rebuilt group numbers.order curve.order_times (numbers.value t.k)
                (numbers.value c) d pos),
          rw (← same) (s, refl, nonneg, rw value (mod-lt _ pos)),
        )

    -- The objects that a signer sends are initialized, and its response is in [0, …, order - 1].
    pub Signer-objects :
        (key : PubKey o) (commit : CommitPoint o) (response : Response o)
        → Signer challenge key commit response
        → (s : o.Bignum) × (p : o.Point) × HoldsNumber o doc runs response s
          × (numbers.value s < numbers.order)
          × (commit.initialized ≡ true)
          × (commit.point ≡ some p)
    Signer-objects key commit response t =
        let pos : 0 < numbers.order = omega (arith, numbers.one_lt_order) in
        let (s, made, value, nonneg) =
          response_lem o doc runs t.secret t.k challenge c t.privkey t.secret_holds holds
            t.key_range.nonneg in
        let same = returns-injective (sym made ∙ t.response_made) in
        let (p, committed) = of_secret-returns o doc runs t.secret t.k t.secret_holds in
        let met = returns-injective (sym committed ∙ t.commit_made) in
        (
          s,
          p,
          rw (← same) (refl, refl, nonneg),
          rw value (mod-lt _ pos),
          rw (← met) refl,
          rw (← met) refl,
        )

    pub Signers-Answering :
        (ps : List (PubKey o)) (qs : List (CommitPoint o)) (rs : List (Response o))
        → Signers challenge ps qs rs
        → Answering o doc c ps qs rs
    Signers-Answering [] [] [] t = tt
    Signers-Answering (p ∷ ps) (q ∷ qs) (r ∷ rs) (t, ts) =
        (signer_lem p q r t, Signers-Answering ps qs rs ts)
    Signers-Answering _ _ _ t = absurd t
