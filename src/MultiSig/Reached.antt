-- ===== src/MultiSig/Reached.antt =====
-- src/libSchnorr/src/MultiSig_CommitSecret.cpp, MultiSig_CommitPointHash.cpp, MultiSig_Challenge.cpp,
-- MultiSig_Response.cpp and MultiSig.cpp: the objects that hold a number, over their whole life.
pub mod Steps
pub mod Safety
pub mod Answers
use schnorr.Common.{
  ℕ, List, [], ◌∷◌, ◌≡◌, ◌≢◌, ◌⊎◌, inl, inr, refl, true, false, Option, none, some, not, length,
  ltb, ◌==◌, add32, Bool-cases, Option-cases, zero, suc, arith,
}
use schnorr.Run.{Run, returns, faults, next, bad_alloc, ◌>>=◌, finish, finish-call}
use schnorr.Run.Ends.{
  Ends, value_of, return_if-Ends, or_return-Ends, or_throw-Ends, deref-Ends, call-Ends,
  call_known-Ends,
}
use schnorr.OpenSsl.{OpenSsl}
use schnorr.Keys.{PrivKey, PubKey}
use schnorr.Sha2
use schnorr.BignumSerialize
use schnorr.MultiSig.Objects.{
  NumberObject, number_new, number_copy, number_assign, number_eq, number_serialize,
  number_deserialize, blank, copied,
}
use schnorr.MultiSig.CommitSecret
use schnorr.MultiSig.CommitPoint.{CommitPoint}
use schnorr.MultiSig.CommitPointHash
use schnorr.MultiSig.Challenge
use schnorr.MultiSig.Response
use schnorr.MultiSig.Aggregate.{add_responses, aggregate_responses}
use schnorr.Verify.{octets_or_return}

module _ (o : OpenSsl) where
  -- The objects that the public functions can leave.
  pub data Reached : NumberObject o → Type 0 where
    created : (x : NumberObject o) → number_new o ≡ returns x → Reached x
    generated :
        (fuel : ℕ) (w w' : o.World) (x : NumberObject o)
        → CommitSecret.generate o fuel w ≡ returns (x, w')
        → Reached x
    unread : Reached (blank o)
    copied_of : (src x : NumberObject o) → Reached src → number_copy o src ≡ returns x → Reached x
    assigned :
        (self src x : NumberObject o)
        → Reached self
        → Reached src
        → number_assign o self src ≡ returns x
        → Reached x
    deserialized :
        (self : NumberObject o) (size : ℕ) (src : List ℕ) (offset : ℕ)
        → Reached self
        → Reached (number_deserialize o size self src offset).0
    hash_set :
        (self x : NumberObject o) (point : CommitPoint o)
        → Reached self
        → CommitPointHash.set o self point ≡ returns x
        → Reached x
    challenge_set :
        (self x : NumberObject o) (commit : CommitPoint o) (key : PubKey o) (message : List ℕ)
        (offset size : ℕ)
        → Reached self
        → Challenge.set o self commit key message offset size ≡ returns x
        → Reached x
    response_set :
        (self x secret challenge : NumberObject o) (d : PrivKey o)
        → Reached self
        → Reached secret
        → Reached challenge
        → Response.set o self secret challenge d ≡ returns x
        → Reached x
    summed :
        (rs : List (NumberObject o)) (x : NumberObject o)
        → aggregate_responses o rs ≡ returns (some x)
        → Reached x

  -- An initialized object has a number.
  abbrev pub Invariant : NumberObject o → Type 0
  Invariant x = (x.initialized ≡ false) ⊎ ((n : o.Bignum) × (x.number ≡ some n))
