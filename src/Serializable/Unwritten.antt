-- ===== src/Serializable/Unwritten.antt =====
-- The `Serialize` functions of src/libSchnorr/include/Schnorr.h and MultiSig.h, at a place whose end is not a value of
-- `unsigned int`.
use schnorr.Common.{◌-◌, add32, ℕ, ◌+◌, ◌^◌, ◌≤◌, ◌<◌, ◌≡◌, ◌≢◌, refl, ap, List, not, true, arith}
use schnorr.Run.{
  returns, bad_alloc, call-step, or_throw-step, or_return-step, return_if-step, deref-step,
}
use schnorr.OpenSsl.{OpenSsl}
use schnorr.OpenSsl.Laws.{Documented, NeverFails}
use schnorr.BignumSerialize
use schnorr.EcPointSerialize
use schnorr.Keys.{Signature, signature_serialize, priv_key_serialize, pub_key_serialize}
use schnorr.MultiSig.Objects.{NumberObject, number_serialize}
use schnorr.MultiSig.CommitPoint
use schnorr.MultiSig.CommitPointHash
use schnorr.MultiSig.Challenge
use schnorr.MultiSig.Response
use schnorr.Serializable.Implements.{HoldsFit}
use schnorr.Serializable.Classes.{Class, Object, IsValid, serializable, size_of}

set_number-unwritten :
    (o : OpenSsl) (dst : List ℕ) (offset : ℕ)
    → offset < 2 ^ 32
    → (size : ℕ) (n : o.Bignum) → size < 2 ^ 32
    → 2 ^ 32 ≤ offset + size
    → BignumSerialize.set_number o dst offset size n ≡ dst
unfolding BignumSerialize.set_number
set_number-unwritten o dst offset fits size n small beyond = ground (arith, fits, small, beyond)

module _ (o : OpenSsl) (doc : Documented o) (runs : NeverFails o doc.group doc.numbers)
    (dst : List ℕ) (offset : ℕ) (fits : offset < 2 ^ 32) where
  open doc use {group, numbers, curve}

  ec_set_number-unwritten :
      (p : o.Point)
      → 2 ^ 32 ≤ offset + 33
      → EcPointSerialize.set_number o dst offset 33 p ≡ returns dst
  unfolding EcPointSerialize.set_number
  ec_set_number-unwritten p beyond =
      let (b, b_eq) = runs.point2bn p in
      or_throw-step o.bn_ctx_new bad_alloc _ runs.bn_ctx_new.1 (
        or_return-step (o.ec_point_point2bn p) dst _ b_eq
          (ap returns (set_number-unwritten o dst offset fits 33 b (omega arith) beyond)))

  number_serialize-unwritten :
      (x : NumberObject o)
      → HoldsFit o doc runs x
      → 2 ^ 32 ≤ offset + 32
      → number_serialize o 32 x dst offset ≡ returns (dst, true)
  unfolding number_serialize
  number_serialize-unwritten x (n, (init, held, _), _) beyond =
      return_if-step (not x.initialized) _ _ (ap not init) (
        deref-step x.number _ held (
          ap (λ v. returns (v, true))
            (set_number-unwritten o dst offset fits 32 n (omega arith) beyond)))

  -- Of the private key, the public key, the commitment, its hash, the challenge and the response: where the
  -- end of the place is not a value of `unsigned int`, `Serialize` of a valid object writes nothing and
  -- returns true, where no call of OpenSSL fails.
  pub serialize-unwritten :
      (c : Class) (x : Object o c)
      → c ≢ Class.signature
      → IsValid o doc runs c x
      → 2 ^ 32 ≤ offset + size_of c
      → (serializable o c).serialize x dst offset ≡ returns (dst, true)
  unfolding priv_key_serialize pub_key_serialize CommitPoint.serialize CommitPointHash.serialize
      Challenge.serialize Response.serialize
  serialize-unwritten Class.priv_key x ne valid beyond =
      ap (λ v. returns (v, true))
        (set_number-unwritten o dst offset fits 32 x.d (omega arith) beyond)
  serialize-unwritten Class.pub_key x ne valid beyond =
      call-step (EcPointSerialize.set_number o dst offset 33 x.p) _
        (ec_set_number-unwritten x.p beyond) refl
  serialize-unwritten Class.signature x ne valid beyond = absurd (ne refl)
  serialize-unwritten Class.commit_point x ne (init, (p, held, _)) beyond =
      return_if-step (not x.initialized) _ _ (ap not init) (
        deref-step x.point _ held (
          call-step (EcPointSerialize.set_number o dst offset 33 p) _
            (ec_set_number-unwritten p beyond) refl))
  serialize-unwritten Class.commit_point_hash x ne valid beyond =
      number_serialize-unwritten x valid beyond
  serialize-unwritten Class.challenge x ne valid beyond = number_serialize-unwritten x valid beyond
  serialize-unwritten Class.response x ne valid beyond = number_serialize-unwritten x valid beyond

-- `Signature::Serialize`, where the end of its first number is not a value of `unsigned int`: the second number is
-- written at an offset that has wrapped, near the start of the vector, and the result is true.
pub signature_serialize-wraps :
    (o : OpenSsl) (x : Signature o) (dst : List ℕ) (offset : ℕ)
    → offset < 2 ^ 32
    → 2 ^ 32 ≤ offset + 32
    → signature_serialize o x dst offset
      ≡ (BignumSerialize.set_number o dst (offset + 32 - 2 ^ 32) 32 x.s, true)
unfolding signature_serialize
signature_serialize-wraps o x dst offset fits beyond =
    let place : add32 offset 32 ≡ offset + 32 - 2 ^ 32 = omega arith in
    rw (place, set_number-unwritten o dst offset fits 32 x.r (omega arith) beyond) refl
