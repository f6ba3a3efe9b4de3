-- ===== src/Lib.antt =====
-- The EC-Schnorr library over secp256k1 and its multi-signatures, libSchnorr of this repository.
--
-- A signer has a private key d in [1, …, order - 1] and the public key d * G. `Schnorr::Sign` draws a nonce
-- k, hashes Q = k * G, the key and a slice of the message to a challenge r, and answers with
-- s = k - r * d; `Schnorr::Verify` rebuilds Q = s * G + r * key and hashes again. In a
-- multi-signature each signer sends a commitment k * G, an aggregator adds the commitments and
-- the keys, the challenge is hashed from the two sums, each signer sends a response, and the
-- aggregator adds the responses: the challenge and the sum are the signature.
--
-- The files, and the code that they translate (src/libSchnorr/src, where nothing else is named):
--   Sha2.antt               `class SHA2` of Sha2.h; Sha2/Absorb.antt: what it has absorbed
--   Sizes.antt              the constants of SchnorrInternal.h
--   BignumSerialize.antt    BIGNUMSerialize.cpp
--   EcPointSerialize.antt   ECPOINTSerialize.cpp
--   Keys.antt               `PrivKey`, `PubKey` and `Signature`: Schnorr_PrivKey.cpp, Schnorr_PubKey.cpp,
--                           Schnorr_Signature.cpp and src/libSchnorr/include/Schnorr.h
--   Nonce.antt              `BN_generate_dsa_nonce`, the repository's version of OpenSSL's: generate_dsa_nonce.c
--   Curve.antt              `class Schnorr::Curve` of Schnorr.cpp
--   Serializable.antt       `SerializableCrypto` of src/libSchnorr/include/Schnorr.h, and its classes
--   Text.antt               the conversions to and from text: the template of SchnorrInternal.h, the
--                           conversions and `hash<PubKey>` of the classes, `PrintPoint` of Schnorr.cpp
--   Sign.antt               `GenKeyPair` and `Sign` of Schnorr.cpp, `SignKey` of MultiSig.cpp
--   Verify.antt             `Verify` of Schnorr.cpp, `MultiSigVerify` and `VerifyKey` of MultiSig.cpp
--   MultiSig/Objects.antt, CommitSecret.antt, CommitPoint.antt, CommitPointHash.antt, Challenge.antt,
--   Response.antt           the classes of src/libSchnorr/include/MultiSig.h, MultiSig_*.cpp
--   MultiSig/Aggregate.antt the rest of MultiSig.cpp; MultiSig/Checked.antt: what the aggregator checks is
--                           enough; MultiSig/Honest.antt: honest signers pass
--   MultiSig/Protocol.antt  what the signers and the aggregator send in a whole run
--   MultiSig/Reached.antt   the objects that hold a number, over their whole life
--   MultiSig/Separation.antt the inputs of the three hash functions
--   MultiSig/Party.antt     the signers behind an aggregated key, as a list of which the order is forgotten
--   MultiSig/Memory.antt    the same classes with their numbers behind pointers, and programs of calls
--   Boost.antt              the operations of Boost, as a record
--   Run.antt                how a call ends, and early returns
--   Common.antt             lists, bytes, Boolean tests and remainders
--   Tests.antt              a library over a group of three elements, and the theorems at examples
-- The definitions stand in these files, and the theorems in the folders of the same names.
--
-- OpenSSL is no code of this repository. OpenSsl.antt is a record of the operations that the code calls,
-- each of which may fail, and every definition takes such a record. OpenSsl/Laws.antt states what
-- is documented of their results, as hypotheses: `BnLaws` for numbers, `CurveGroup` and `EcLaws`
-- for the curve as a commutative group with compressed encodings, `ShaLaws` for a digest of what
-- was absorbed, `Sha512Laws` for the length of the longer digest. None of these says that a call succeeds:
-- `EcLaws` says what EC_POINT_point2oct writes where it writes 33 octets, and what EC_POINT_cmp says where it does not
-- report an error. `NeverFails` says that the calls succeed, and theorems
-- that want it take it by name. Whether a call fails is a function of its arguments and, for random numbers, of the state
-- of their generator. So an allocation, which has no arguments, fails each time of a run or never, and
-- "whatever calls fail" means every failure of that kind.
--
-- BN_nnmod is called with NULL for a context by `MultiSigVerify`, `Challenge::Set` and `CommitPointHash::Set`,
-- which its documentation does not allow. That call is an operation of its own, `bn_nnmod_null`, which may end in
-- any way, by a fault too. `NeverFails` supposes that it works, a theorem that needs no more than that it
-- comes back takes just that, and the other theorems say what holds where it does.
--
-- Tests/Toy.antt has an instance of all these laws.
-- Boost is a parameter in the same way: `hex`, `unhex` and `hash_combine` are the fields of Boost.antt, where
-- `HexLaws` says that a text has two digits for each byte and that `unhex` undoes `hex`.
--
-- State. The objects are passed by value: each copy of the code is deep. A function that changes an
-- object returns the object that it leaves. The random number generator is a state that is
-- passed through. An exception is `throws`, a read outside a vector or through a null pointer
-- is `faults`, an exception that leaves a `noexcept` function is `terminates`, and an early return ends
-- the body. The locks keep no state that a result depends on, so the operations leave them out.
-- The classes of MultiSig.h may hold a null pointer after a byte stream was not read, so they hold
-- an `Option`; those of Schnorr.h never do.
--
-- Bounds. A sum of two `unsigned int` is taken modulo 2 ^ 32, as the code does without a check. Where it
-- wraps, `SHA2::Update` reads outside the vector, which is a fault. The loops that draw random
-- numbers recur on fuel, and a run that uses it up is `out_of_fuel`, never a result: a loop
-- needs one more than the draws that do not serve. The loop of `BN_generate_dsa_nonce` has fuel for each byte
-- that it fills, which is enough. The loops of
-- `AggregatePubKeys`, `AggregateCommits` and `AggregateResponses` recur on their lists and keep their counter,
-- an `unsigned int`: from 2^32 elements on it comes back to 0 before the size is reached and the loop starts again
-- from the first element, which is `out_of_fuel` here. The other loops recur on their lists.
--
-- Pointers. In MultiSig/Memory.antt a number stands at an address, an object holds a pointer to it, and the calls of
-- OpenSSL write through that pointer, one write behind another. A program of calls over these is
-- related to the same program by value, which is why the other files can leave the pointers out. An address is not
-- used again after its number has been freed.
--
-- Not modelled: threads and the four mutexes (every call is one of a single thread), the pointers of
-- the classes of Schnorr.h and of `CommitPoint`, which are copied in the same way, the clearing of
-- buffers, and the tests and build files. The lines of the code that no definition covers are comments, licences,
-- declarations and destructors.
pub mod Common
pub mod Run
pub mod OpenSsl
pub mod Nonce
pub mod Sha2
pub mod Sizes
pub mod BignumSerialize
pub mod EcPointSerialize
pub mod Boost
pub mod Keys
pub mod Sign
pub mod Verify
pub mod MultiSig
pub mod Curve
pub mod Serializable
pub mod Text
pub mod Tests
