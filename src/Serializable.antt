-- ===== src/Serializable.antt =====
-- src/libSchnorr/include/Schnorr.h: the interface `SerializableCrypto`, and the classes that implement it.
pub mod Contract
pub mod Points
pub mod Implements
pub mod Classes
pub mod Octets
pub mod Inside
pub mod Outside
pub mod Unwritten
use schnorr.Common.{ℕ, List, Bool}
use schnorr.Run.{Outcome, returns}
use schnorr.OpenSsl.{OpenSsl}
use schnorr.Keys.{
  PrivKey, PubKey, Signature, priv_key_serialize, priv_key_deserialize, pub_key_serialize,
  pub_key_deserialize, signature_serialize, signature_deserialize,
}
use schnorr.MultiSig.CommitSecret
use schnorr.MultiSig.CommitSecret.{CommitSecret}
use schnorr.MultiSig.CommitPoint
use schnorr.MultiSig.CommitPoint.{CommitPoint}
use schnorr.MultiSig.CommitPointHash
use schnorr.MultiSig.CommitPointHash.{CommitPointHash}
use schnorr.MultiSig.Challenge
use schnorr.MultiSig.Challenge.{Challenge}
use schnorr.MultiSig.Response
use schnorr.MultiSig.Response.{Response}

-- The two virtual functions: the vector, or the object, that a call leaves, and its result.
pub record SerializableCrypto (T : Type 0) : Type 0 where
  pub serialize : T → List ℕ → ℕ → Outcome (List ℕ × Bool)
  pub deserialize : T → List ℕ → ℕ → Outcome (T × Bool)

module _ (o : OpenSsl) where
  abbrev pub priv_key_serializable : SerializableCrypto (PrivKey o)
  priv_key_serializable = record {
    serialize = λ x dst offset. returns (priv_key_serialize o x dst offset);
    deserialize = λ x src offset. returns (priv_key_deserialize o x src offset);
  }

  abbrev pub pub_key_serializable : SerializableCrypto (PubKey o)
  pub_key_serializable = record {
    serialize = pub_key_serialize o;
    deserialize = pub_key_deserialize o;
  }

  abbrev pub signature_serializable : SerializableCrypto (Signature o)
  signature_serializable = record {
    serialize = λ x dst offset. returns (signature_serialize o x dst offset);
    deserialize = signature_deserialize o;
  }

  abbrev pub commit_secret_serializable : SerializableCrypto (CommitSecret o)
  commit_secret_serializable = record {
    serialize = CommitSecret.serialize o;
    deserialize = λ x src offset. returns (CommitSecret.deserialize o x src offset);
  }

  abbrev pub commit_point_serializable : SerializableCrypto (CommitPoint o)
  commit_point_serializable = record {
    serialize = CommitPoint.serialize o;
    deserialize = CommitPoint.deserialize o;
  }

  abbrev pub commit_point_hash_serializable : SerializableCrypto (CommitPointHash o)
  commit_point_hash_serializable = record {
    serialize = CommitPointHash.serialize o;
    deserialize = λ x src offset. returns (CommitPointHash.deserialize o x src offset);
  }

  abbrev pub challenge_serializable : SerializableCrypto (Challenge o)
  challenge_serializable = record {
    serialize = Challenge.serialize o;
    deserialize = λ x src offset. returns (Challenge.deserialize o x src offset);
  }

  abbrev pub response_serializable : SerializableCrypto (Response o)
  response_serializable = record {
    serialize = Response.serialize o;
    deserialize = λ x src offset. returns (Response.deserialize o x src offset);
  }
