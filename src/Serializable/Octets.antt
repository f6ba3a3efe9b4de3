-- ===== src/Serializable/Octets.antt =====
-- The `Serialize` functions of src/libSchnorr/include/Schnorr.h and MultiSig.h: what they leave in the vector.
use schnorr.Common.{ℕ, ◌≡◌, List, Bool, not}
use schnorr.Run.{returns, bad_alloc}
use schnorr.Run.Ends.{
  Ends, value_of, return_if-Ends, or_return-Ends, or_throw-Ends, deref-Ends, call_known-Ends,
}
use schnorr.OpenSsl.{OpenSsl}
use schnorr.OpenSsl.Laws.{BnLaws, BnLaws}
use schnorr.BignumSerialize.Bounds.{IsBytes, set_number-IsBytes}
use schnorr.EcPointSerialize
use schnorr.Keys.{priv_key_serialize, pub_key_serialize, signature_serialize}
use schnorr.MultiSig.Objects.{NumberObject, number_serialize}
use schnorr.MultiSig.CommitPoint
use schnorr.MultiSig.CommitPointHash
use schnorr.MultiSig.Challenge
use schnorr.MultiSig.Response
use schnorr.Serializable.Classes.{Class, Object, serializable}

-- The vector of a result is a vector of bytes.
abbrev LeavesBytes : List ℕ × Bool → Type 0
LeavesBytes x = IsBytes x.0

module _ (o : OpenSsl) (numbers : BnLaws o) (dst : List ℕ) (offset : ℕ) (bytes : IsBytes dst) where
  ec_set_number-Ends :
      (size : ℕ) (p : o.Point) → Ends IsBytes (EcPointSerialize.set_number o dst offset size p)
  unfolding EcPointSerialize.set_number
  ec_set_number-Ends size p = or_throw-Ends IsBytes o.bn_ctx_new bad_alloc _ (λ c.
      or_return-Ends IsBytes (o.ec_point_point2bn p) dst _ bytes
        (λ b. set_number-IsBytes o numbers dst offset size b bytes))

  number_serialize-Ends :
      (size : ℕ) (x : NumberObject o) → Ends LeavesBytes (number_serialize o size x dst offset)
  unfolding number_serialize
  number_serialize-Ends size x = return_if-Ends LeavesBytes (not x.initialized) _ _ bytes (
      deref-Ends LeavesBytes x.number _ (λ n. set_number-IsBytes o numbers dst offset size n bytes))

  serialize-Ends :
      (c : Class) (x : Object o c) → Ends LeavesBytes ((serializable o c).serialize x dst offset)
  unfolding priv_key_serialize pub_key_serialize signature_serialize CommitPoint.serialize
      CommitPointHash.serialize Challenge.serialize Response.serialize
  serialize-Ends Class.priv_key x = set_number-IsBytes o numbers dst offset 32 x.d bytes
  serialize-Ends Class.pub_key x =
      call_known-Ends LeavesBytes IsBytes (EcPointSerialize.set_number o dst offset 33 x.p) _
        (ec_set_number-Ends 33 x.p) (λ v h. h)
  serialize-Ends Class.signature x =
      set_number-IsBytes o numbers _ _ 32 x.s (set_number-IsBytes o numbers dst offset 32 x.r bytes)
  serialize-Ends Class.commit_point x = return_if-Ends LeavesBytes (not x.initialized) _ _ bytes (
      deref-Ends LeavesBytes x.point _ (λ p.
        call_known-Ends LeavesBytes IsBytes (EcPointSerialize.set_number o dst offset 33 p) _
          (ec_set_number-Ends 33 p) (λ v h. h)))
  serialize-Ends Class.commit_point_hash x = number_serialize-Ends 32 x
  serialize-Ends Class.challenge x = number_serialize-Ends 32 x
  serialize-Ends Class.response x = number_serialize-Ends 32 x

  -- Of the private key, the public key, the signature, the commitment, its hash, the challenge and the
  -- response: where `Serialize` returns, with true or false, it leaves a vector of bytes, that is of
  -- numbers below 256, if it was given one, whatever object and offset and whatever calls of OpenSSL
  -- fail.
  pub serialize-IsBytes :
      (c : Class) (x : Object o c) (dst' : List ℕ) (flag : Bool)
      → (serializable o c).serialize x dst offset ≡ returns (dst', flag)
      → IsBytes dst'
  serialize-IsBytes c x dst' flag h =
      value_of LeavesBytes ((serializable o c).serialize x dst offset) (dst', flag)
        (serialize-Ends c x) h
