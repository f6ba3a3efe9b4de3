-- ===== src/Verify/Elements.antt =====
-- What `Schnorr::Verify` and `MultiSigVerify` accept under public keys of the same element.
use schnorr.Common.{ℕ, ◌≡◌, List}
use schnorr.OpenSsl.{OpenSsl}
use schnorr.OpenSsl.Laws.{Documented}
use schnorr.Keys.{PubKey, Signature}
use schnorr.Verify.Accepts.{Accepts, commitment_of}

module _ (o : OpenSsl) (doc : Documented o) where
  open doc use {curve}

  -- What the scheme accepts depends on the element of the key alone.
  pub Accepts-element :
      (start message : List ℕ) (offset size : ℕ) (sig : Signature o) (key read : PubKey o)
      → curve.element read.p ≡ curve.element key.p
      → Accepts o doc start message offset size sig key
      → Accepts o doc start message offset size sig read
  Accepts-element start message offset size sig key read e t = record {
    message_pos = t.message_pos;
    inside = t.inside;
    r_range = t.r_range;
    s_range = t.s_range;
    commitment_finite = rw (e, commitment_of) t.commitment_finite;
    key_finite = rw e t.key_finite;
    challenge = rw (e, commitment_of) t.challenge;
  }
