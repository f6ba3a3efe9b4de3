-- ===== src/Serializable/Outside.antt =====
-- The `Serialize` functions of src/libSchnorr/include/Schnorr.h and MultiSig.h: what stands around the place that
-- they write.
use schnorr.Common.{
  ap, length-take, ℕ, ◌+◌, ◌^◌, ◌≤◌, ◌<◌, ◌≡◌, refl, List, Bool, not, add32, length, take, drop,
  arith,
}
use schnorr.Run.{returns, bad_alloc}
use schnorr.Run.Ends.{
  Ends, value_of, return_if-Ends, or_return-Ends, or_throw-Ends, deref-Ends, call_known-Ends,
}
use schnorr.OpenSsl.{OpenSsl}
use schnorr.OpenSsl.Laws.{BnLaws}
use schnorr.BignumSerialize
use schnorr.BignumSerialize.Outside.{Outside, Outside-trans, set_number-Outside}
use schnorr.EcPointSerialize
use schnorr.Keys.{Signature, priv_key_serialize, pub_key_serialize, signature_serialize}
use schnorr.MultiSig.Objects.{NumberObject, number_serialize}
use schnorr.MultiSig.CommitPoint
use schnorr.MultiSig.CommitPointHash
use schnorr.MultiSig.Challenge
use schnorr.MultiSig.Response
use schnorr.Serializable.Classes.{Class, Object, serializable, size_of}

module _ (o : OpenSsl) (numbers : BnLaws o) (dst : List ℕ) (offset : ℕ)
    (long : offset ≤ length dst) where
  -- A vector that agrees with `dst` around `size` bytes from the offset on.
  abbrev Kept : ℕ → List ℕ → Type 0
  Kept size v = Outside offset (offset + size) v dst

  abbrev Leaves : ℕ → List ℕ × Bool → Type 0
  Leaves size x = Kept size x.0

  set_number-Kept :
      (size : ℕ) (n : o.Bignum)
      → offset + size < 2 ^ 32
      → Kept size (BignumSerialize.set_number o dst offset size n)
  set_number-Kept size n small =
      set_number-Outside o numbers dst offset offset size (offset + size) n (omega arith) long
        (omega arith) small

  ec_set_number-Ends :
      (size : ℕ) (p : o.Point)
      → offset + size < 2 ^ 32
      → Ends (Kept size) (EcPointSerialize.set_number o dst offset size p)
  unfolding EcPointSerialize.set_number
  ec_set_number-Ends size p small = or_throw-Ends (Kept size) o.bn_ctx_new bad_alloc _ (λ c.
      or_return-Ends (Kept size) (o.ec_point_point2bn p) dst _ (refl, refl)
        (λ b. set_number-Kept size b small))

  number_serialize-Ends :
      (size : ℕ) (x : NumberObject o)
      → offset + size < 2 ^ 32
      → Ends (Leaves size) (number_serialize o size x dst offset)
  unfolding number_serialize
  number_serialize-Ends size x small =
      return_if-Ends (Leaves size) (not x.initialized) _ _ (refl, refl)
        (deref-Ends (Leaves size) x.number _ (λ n. set_number-Kept size n small))

  -- The second number of a signature is written behind the first.
  signature-Kept :
      (x : Signature o)
      → offset + 64 < 2 ^ 32
      → Kept 64 (
          BignumSerialize.set_number o
            (BignumSerialize.set_number o dst offset 32 x.r)
            (add32 offset 32)
            32
            x.s)
  signature-Kept x small =
      let first = BignumSerialize.set_number o dst offset 32 x.r in
      let end : add32 offset 32 ≡ offset + 32 = omega arith in
      let kept : Outside offset (offset + 64) first dst =
        set_number-Outside o numbers dst offset offset 32 (offset + 64) x.r (omega arith) long
          (omega arith) (omega arith) in
      let same = ap length kept.0 in
      let reaches : offset ≤ length first =
        omega (arith, length-take offset first, length-take offset dst, same) in
      rw end (
        Outside-trans offset (offset + 64) (BignumSerialize.set_number o first (offset + 32) 32 x.s)
          first dst
          (set_number-Outside o numbers first offset (offset + 32) 32 (offset + 64) x.s
            (omega arith) reaches (omega arith) (omega arith))
          kept)

  serialize-Ends :
      (c : Class) (x : Object o c)
      → offset + size_of c < 2 ^ 32
      → Ends (Leaves (size_of c)) ((serializable o c).serialize x dst offset)
  unfolding priv_key_serialize pub_key_serialize signature_serialize CommitPoint.serialize
      CommitPointHash.serialize Challenge.serialize Response.serialize
  serialize-Ends Class.priv_key x small = set_number-Kept 32 x.d small
  serialize-Ends Class.pub_key x small =
      call_known-Ends (Leaves 33) (Kept 33) (EcPointSerialize.set_number o dst offset 33 x.p) _
        (ec_set_number-Ends 33 x.p small) (λ v h. h)
  serialize-Ends Class.signature x small = signature-Kept x small
  serialize-Ends Class.commit_point x small =
      return_if-Ends (Leaves 33) (not x.initialized) _ _ (refl, refl)
        (deref-Ends (Leaves 33) x.point _ (λ p.
          call_known-Ends (Leaves 33) (Kept 33) (EcPointSerialize.set_number o dst offset 33 p) _
            (ec_set_number-Ends 33 p small) (λ v h. h)))
  serialize-Ends Class.commit_point_hash x small = number_serialize-Ends 32 x small
  serialize-Ends Class.challenge x small = number_serialize-Ends 32 x small
  serialize-Ends Class.response x small = number_serialize-Ends 32 x small

  -- Of the private key, the public key, the signature, the commitment, its hash, the challenge and the
  -- response: where `Serialize` returns, with true or false, the vector reaches to the offset and the end of
  -- the place fits an `unsigned int`, the elements in front of the offset and those behind the place
  -- are as they were, whatever the object and whatever calls of OpenSSL fail.
  pub serialize-outside :
      (c : Class) (x : Object o c) (dst' : List ℕ) (flag : Bool)
      → offset + size_of c < 2 ^ 32
      → (serializable o c).serialize x dst offset ≡ returns (dst', flag)
      → (take offset dst' ≡ take offset dst)
        × (drop (offset + size_of c) dst' ≡ drop (offset + size_of c) dst)
  serialize-outside c x dst' flag small h =
      value_of (Leaves (size_of c)) ((serializable o c).serialize x dst offset) (dst', flag)
        (serialize-Ends c x small) h
