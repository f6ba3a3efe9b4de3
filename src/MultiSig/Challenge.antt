-- ===== src/MultiSig/Challenge.antt =====
-- src/libSchnorr/src/MultiSig_Challenge.cpp: `class Challenge`.
use schnorr.Common.{
  ℕ, ◌%◌, ◌^◌, List, [], ◌∷◌, Bool, true, false, none, some, not, add32, length, ltb, ◌==◌,
}
use schnorr.Run.{
  Outcome, next, finish, or_return, called_or_return, return_if, call, deref, ◌>>=◌, ◌>>◌,
}
use schnorr.OpenSsl.{OpenSsl, nnmod}
use schnorr.Sha2
use schnorr.Keys.{PubKey}
use schnorr.Verify.{octets_or_return}
use schnorr.Sizes.{challenge_size, third_domain_separated_hash_function_byte}
use schnorr.MultiSig.CommitPoint.{CommitPoint}
use schnorr.MultiSig.Objects.{
  NumberObject, number_new, number_copy, number_assign, number_eq, number_serialize,
  number_deserialize, blank,
}

abbrev pub Challenge : OpenSsl → Type 0
Challenge o = NumberObject o

module _ (o : OpenSsl) where
  unfoldable pub new : Outcome (Challenge o)
  unfolding number_new
  new = number_new o

  unfoldable pub copy : Challenge o → Outcome (Challenge o)
  unfolding number_copy
  copy src = number_copy o src

  unfoldable pub assign : Challenge o → Challenge o → Outcome (Challenge o)
  unfolding number_assign
  assign self src = number_assign o self src

  unfoldable pub eq : Challenge o → Challenge o → Outcome Bool
  unfolding number_eq
  eq self r = number_eq o self r

  unfoldable pub serialize : Challenge o → List ℕ → ℕ → Outcome (List ℕ × Bool)
  unfolding number_serialize
  serialize self dst offset = number_serialize o challenge_size self dst offset

  unfoldable pub deserialize : Challenge o → List ℕ → ℕ → Challenge o × Bool
  unfolding number_deserialize
  deserialize self src offset = number_deserialize o challenge_size self src offset

  unfoldable pub from_bytes : List ℕ → ℕ → Challenge o
  unfolding deserialize
  from_bytes src offset = (deserialize (blank o) src offset).0

  -- `Set`. The object is unchanged where an initial check fails.
  unfoldable pub set :
      Challenge o → CommitPoint o → PubKey o → List ℕ → ℕ → ℕ → Outcome (Challenge o)
  set self aggregated_commit aggregated_pubkey message offset size = finish do
    return_if (not aggregated_commit.initialized) self
    return_if (length message == 0) self
    return_if (ltb (length message) (add32 offset size)) self
    sha2_new ← call (Sha2.new o Sha2.hash_variant_256)
    let sha2 = Sha2.update o sha2_new (third_domain_separated_hash_function_byte ∷ [])
    let cleared : Challenge o = record self { initialized = false }
    p ← deref aggregated_commit.point
    commitment ← octets_or_return o p cleared
    key ← octets_or_return o aggregated_pubkey.p cleared
    hashed ← call (
        Sha2.update_range o (Sha2.update o (Sha2.update o sha2 commitment) key) message offset size)
    digest_number ← or_return (o.bn_bin2bn (Sha2.finalize o hashed).0) cleared
    target ← deref self.number
    let unreduced : Challenge o = record { number = some digest_number; initialized = false }
    c ← called_or_return (nnmod o digest_number o.curve_order none) unreduced
    next (record { number = some c; initialized = true })

  -- The constructors that set the challenge.
  unfoldable pub of_slice : CommitPoint o → PubKey o → List ℕ → ℕ → ℕ → Outcome (Challenge o)
  unfolding new
  of_slice commit pubkey message offset size =
      finish do self ← call new; call (set self commit pubkey message offset size)

  unfoldable pub of_message : CommitPoint o → PubKey o → List ℕ → Outcome (Challenge o)
  unfolding of_slice
  of_message commit pubkey message = of_slice commit pubkey message 0 (length message % 2 ^ 32)
