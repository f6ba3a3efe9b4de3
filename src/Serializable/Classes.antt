-- ===== src/Serializable/Classes.antt =====
-- src/libSchnorr/include/Schnorr.h and MultiSig.h: the classes that implement `SerializableCrypto` and whose
-- `Deserialize` reports success, as one family.
use schnorr.Common.{ℕ, ◌+◌, ◌^◌, ◌<◌, ◌≡◌, ◌≢◌, max, List, true, some, length}
use schnorr.Run.{returns}
use schnorr.OpenSsl.{OpenSsl}
use schnorr.OpenSsl.Laws.{Documented, NeverFails}
use schnorr.Keys.{PrivKey, PubKey, Signature, priv_key_eq, pub_key_eq, signature_eq}
use schnorr.MultiSig.CommitPoint
use schnorr.MultiSig.CommitPoint.{CommitPoint}
use schnorr.MultiSig.CommitPointHash
use schnorr.MultiSig.CommitPointHash.{CommitPointHash}
use schnorr.MultiSig.Challenge
use schnorr.MultiSig.Challenge.{Challenge}
use schnorr.MultiSig.Response
use schnorr.MultiSig.Response.{Response}
use schnorr.Sizes.{
  priv_key_size, pub_key_size, commit_point_size, commit_point_hash_size, challenge_size,
  response_size, signature_challenge_size, signature_response_size,
}
use schnorr.Serializable.{
  SerializableCrypto, priv_key_serializable, pub_key_serializable, signature_serializable,
  commit_point_serializable, commit_point_hash_serializable, challenge_serializable,
  response_serializable,
}
use schnorr.Serializable.Contract.{Contract}
use schnorr.Serializable.Implements.{
  Fits, HoldsFit, priv_key-Contract, pub_key-Contract, signature-Contract, commit_point-Contract,
  commit_point_hash-Contract, challenge-Contract, response-Contract,
}

pub data Class : Type 0 where
  priv_key : Class
  pub_key : Class
  signature : Class
  commit_point : Class
  commit_point_hash : Class
  challenge : Class
  response : Class

-- The bytes of an encoding.
abbrev pub size_of : Class → ℕ
size_of priv_key = priv_key_size
size_of pub_key = pub_key_size
size_of signature = signature_challenge_size + signature_response_size
size_of commit_point = commit_point_size
size_of commit_point_hash = commit_point_hash_size
size_of challenge = challenge_size
size_of response = response_size

module _ (o : OpenSsl) where
  abbrev pub Object : Class → Type 0
  Object priv_key = PrivKey o
  Object pub_key = PubKey o
  Object signature = Signature o
  Object commit_point = CommitPoint o
  Object commit_point_hash = CommitPointHash o
  Object challenge = Challenge o
  Object response = Response o

  abbrev pub serializable : (c : Class) → SerializableCrypto (Object c)
  serializable priv_key = priv_key_serializable o
  serializable pub_key = pub_key_serializable o
  serializable signature = signature_serializable o
  serializable commit_point = commit_point_serializable o
  serializable commit_point_hash = commit_point_hash_serializable o
  serializable challenge = challenge_serializable o
  serializable response = response_serializable o

module _ (o : OpenSsl) (doc : Documented o) (runs : NeverFails o doc.group doc.numbers) where
  open doc use {group, numbers, curve}

  -- Numbers that are not negative and that 32 bytes hold, finite points, initialized objects.
  abbrev pub IsValid : (c : Class) → Object o c → Type 0
  IsValid priv_key x = Fits o doc runs x.d
  IsValid pub_key x = curve.element x.p ≢ group.identity
  IsValid signature x = Fits o doc runs x.r × Fits o doc runs x.s
  IsValid commit_point x =
      (x.initialized ≡ true)
      × ((p : o.Point) × (x.point ≡ some p) × (curve.element p ≢ group.identity))
  IsValid commit_point_hash x = HoldsFit o doc runs x
  IsValid challenge x = HoldsFit o doc runs x
  IsValid response x = HoldsFit o doc runs x

  -- The objects that the `operator==` of the class finds equal.
  abbrev pub IsEqual : (c : Class) → Object o c → Object o c → Type 0
  IsEqual priv_key x y = priv_key_eq o x y ≡ true
  IsEqual pub_key x y = pub_key_eq o x y ≡ returns true
  IsEqual signature x y = signature_eq o x y ≡ true
  IsEqual commit_point x y = CommitPoint.eq o x y ≡ returns true
  IsEqual commit_point_hash x y = CommitPointHash.eq o x y ≡ returns true
  IsEqual challenge x y = Challenge.eq o x y ≡ returns true
  IsEqual response x y = Response.eq o x y ≡ returns true

  class-Contract : (c : Class) → Contract (serializable o c) (size_of c) (IsValid c) (IsEqual c)
  class-Contract priv_key = priv_key-Contract o doc runs
  class-Contract pub_key = pub_key-Contract o doc runs
  class-Contract signature = signature-Contract o doc runs
  class-Contract commit_point = commit_point-Contract o doc runs
  class-Contract commit_point_hash = commit_point_hash-Contract o doc runs
  class-Contract challenge = challenge-Contract o doc runs
  class-Contract response = response-Contract o doc runs

  -- Of the private key, the public key, the signature, the commitment, its hash, the challenge and the
  -- response: `Serialize` of a valid object `x` returns true and leaves the vector with the bytes that it
  -- had, or as many as end behind the encoding where these are more, and `Deserialize` of that vector
  -- into any object `y` at the same offset returns true and leaves an object that `operator==` finds
  -- equal to `x`. An object is valid where its numbers are not negative and fit 32 bytes, its point
  -- is finite, and it is initialized; the encoding ends below 2^32, and no call of OpenSSL fails.
  pub deserialize-serialize :
      (c : Class) (x y : Object o c) (dst : List ℕ) (offset : ℕ)
      → IsValid c x
      → offset + size_of c < 2 ^ 32
      → (dst' : List ℕ) × (read : Object o c) × ((serializable o c).serialize x dst offset
          ≡ returns (dst', true))
        × (length dst' ≡ max (length dst) (offset + size_of c))
        × ((serializable o c).deserialize y dst' offset ≡ returns (read, true))
        × IsEqual c read x
  deserialize-serialize c x y dst offset valid small =
      (class-Contract c).round_trip x y dst offset valid small
