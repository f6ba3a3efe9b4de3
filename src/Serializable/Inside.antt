-- ===== src/Serializable/Inside.antt =====
-- The `Deserialize` functions of src/libSchnorr/include/Schnorr.h and MultiSig.h, at a place that does not lie inside the
-- vector.
use schnorr.Common.{
  ap, min, ◌-◌, ltb→lt, ltb→le, Option-cases, ℕ, ◌+◌, ◌^◌, ◌<◌, ◌≡◌, refl, List, false, none,
  length, add32, arith, ltb, Bool-cases, inl, inr,
}
use schnorr.Run.{returns, call-step}
use schnorr.OpenSsl.{OpenSsl}
use schnorr.BignumSerialize
use schnorr.EcPointSerialize
use schnorr.Keys.{
  PrivKey, Signature, priv_key_deserialize, pub_key_deserialize, signature_deserialize,
}
use schnorr.MultiSig.Objects.{NumberObject, number_deserialize}
use schnorr.MultiSig.CommitPoint
use schnorr.MultiSig.CommitPointHash
use schnorr.MultiSig.Challenge
use schnorr.MultiSig.Response
use schnorr.Serializable.Classes.{Class, Object, serializable, size_of}

get_number-outside :
    (o : OpenSsl) (src : List ℕ) (offset size : ℕ)
    → offset < 2 ^ 32
    → size < 2 ^ 32
    → min (length src) (2 ^ 32 - 1) < offset + size
    → BignumSerialize.get_number o src offset size ≡ none
unfolding BignumSerialize.get_number
get_number-outside o src offset size fits small outside = ground (arith, fits, small, outside)

module _ (o : OpenSsl) (src : List ℕ) (offset : ℕ) (fits : offset < 2 ^ 32) where
  ec_get_number-outside :
      (size : ℕ)
      → size < 2 ^ 32
      → min (length src) (2 ^ 32 - 1) < offset + size
      → EcPointSerialize.get_number o src offset size ≡ returns none
  unfolding EcPointSerialize.get_number
  ec_get_number-outside size small outside =
      rw (get_number-outside o src offset size fits small outside) refl

  number_deserialize-outside :
      (size : ℕ) (x : NumberObject o)
      → size < 2 ^ 32
      → min (length src) (2 ^ 32 - 1) < offset + size
      → number_deserialize o size x src offset ≡ (x, false)
  unfolding number_deserialize
  number_deserialize-outside size x small outside =
      rw (get_number-outside o src offset size fits small outside, number_deserialize) refl

  priv_key_deserialize-outside :
      (x : PrivKey o)
      → min (length src) (2 ^ 32 - 1) < offset + 32
      → priv_key_deserialize o x src offset ≡ (x, false)
  unfolding priv_key_deserialize
  priv_key_deserialize-outside x outside =
      rw (get_number-outside o src offset 32 fits (omega arith) outside, priv_key_deserialize) refl

  signature_deserialize-outside :
      (x : Signature o)
      → min (length src) (2 ^ 32 - 1) < offset + 64
      → signature_deserialize o x src offset ≡ returns (x, false)
  unfolding signature_deserialize
  signature_deserialize-outside x outside =
      elim (Bool-cases (ltb (min (length src) (2 ^ 32 - 1)) (offset + 32))) [
        | inl e ↦ rw (get_number-outside o src offset 32 fits (omega arith) (ltb→lt _ _ e)) refl
        | inr e ↦
            let first = ltb→le _ _ e in
            let sum : add32 offset 32 ≡ offset + 32 = omega arith in
            let second : BignumSerialize.get_number o src (add32 offset 32) 32 ≡ none = rw sum (
              get_number-outside o src (offset + 32) 32 (omega arith) (omega arith)
                (omega arith)) in
            elim (Option-cases (BignumSerialize.get_number o src offset 32)) [
              | inl none_first ↦ rw none_first refl
              | inr (r, some_first) ↦ rw (some_first, second) refl
            ]
      ]

  -- Of the private key, the public key, the signature, the commitment, its hash, the challenge and the
  -- response: where the encoding does not end in the vector, or not below 2^32, `Deserialize` returns
  -- false and leaves the object as it is, for every offset of type `unsigned int` and whatever calls of
  -- OpenSSL fail.
  pub deserialize-outside :
      (c : Class) (x : Object o c)
      → min (length src) (2 ^ 32 - 1) < offset + size_of c
      → (serializable o c).deserialize x src offset ≡ returns (x, false)
  unfolding pub_key_deserialize CommitPoint.deserialize CommitPointHash.deserialize
      Challenge.deserialize Response.deserialize
  deserialize-outside Class.priv_key x outside = ap returns (priv_key_deserialize-outside x outside)
  deserialize-outside Class.pub_key x outside =
      call-step (EcPointSerialize.get_number o src offset 33) _
        (ec_get_number-outside 33 (omega arith) outside) refl
  deserialize-outside Class.signature x outside = signature_deserialize-outside x outside
  deserialize-outside Class.commit_point x outside =
      call-step (EcPointSerialize.get_number o src offset 33) _
        (ec_get_number-outside 33 (omega arith) outside) refl
  deserialize-outside Class.commit_point_hash x outside =
      ap returns (number_deserialize-outside 32 x (omega arith) outside)
  deserialize-outside Class.challenge x outside =
      ap returns (number_deserialize-outside 32 x (omega arith) outside)
  deserialize-outside Class.response x outside =
      ap returns (number_deserialize-outside 32 x (omega arith) outside)
