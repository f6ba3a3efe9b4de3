-- ===== src/MultiSig/CommitPointHash.antt =====
-- src/libSchnorr/src/MultiSig_CommitPointHash.cpp: `class CommitPointHash`.
use schnorr.Common.{ℕ, List, [], ◌∷◌, Bool, true, false, none, some, not}
use schnorr.Run.{
  Outcome, next, finish, or_return, called_or_return, return_if, call, deref, ◌>>=◌, ◌>>◌,
}
use schnorr.OpenSsl.{OpenSsl, nnmod}
use schnorr.Sha2
use schnorr.Verify.{octets_or_return}
use schnorr.Sizes.{commit_point_hash_size, second_domain_separated_hash_function_byte}
use schnorr.MultiSig.CommitPoint.{CommitPoint}
use schnorr.MultiSig.Objects.{
  NumberObject, number_new, number_copy, number_assign, number_eq, number_serialize,
  number_deserialize, blank,
}

abbrev pub CommitPointHash : OpenSsl → Type 0
CommitPointHash o = NumberObject o

module _ (o : OpenSsl) where
  unfoldable pub new : Outcome (CommitPointHash o)
  unfolding number_new
  new = number_new o

  unfoldable pub copy : CommitPointHash o → Outcome (CommitPointHash o)
  unfolding number_copy
  copy src = number_copy o src

  unfoldable pub assign : CommitPointHash o → CommitPointHash o → Outcome (CommitPointHash o)
  unfolding number_assign
  assign self src = number_assign o self src

  unfoldable pub eq : CommitPointHash o → CommitPointHash o → Outcome Bool
  unfolding number_eq
  eq self r = number_eq o self r

  unfoldable pub serialize : CommitPointHash o → List ℕ → ℕ → Outcome (List ℕ × Bool)
  unfolding number_serialize
  serialize self dst offset = number_serialize o commit_point_hash_size self dst offset

  unfoldable pub deserialize : CommitPointHash o → List ℕ → ℕ → CommitPointHash o × Bool
  unfolding number_deserialize
  deserialize self src offset = number_deserialize o commit_point_hash_size self src offset

  unfoldable pub from_bytes : List ℕ → ℕ → CommitPointHash o
  unfolding deserialize
  from_bytes src offset = (deserialize (blank o) src offset).0

  -- `Set`. The object is unchanged where the point is not initialized.
  unfoldable pub set : CommitPointHash o → CommitPoint o → Outcome (CommitPointHash o)
  set self point = finish do
    return_if (not point.initialized) self
    let cleared : CommitPointHash o = record self { initialized = false }
    sha2_new ← call (Sha2.new o Sha2.hash_variant_256)
    let sha2 = Sha2.update o sha2_new (second_domain_separated_hash_function_byte ∷ [])
    p ← deref point.point
    buf ← octets_or_return o p cleared
    digest_number ← or_return (o.bn_bin2bn (Sha2.finalize o (Sha2.update o sha2 buf)).0) cleared
    target ← deref self.number
    let unreduced : CommitPointHash o = record { number = some digest_number; initialized = false }
    h ← called_or_return (nnmod o digest_number o.curve_order none) unreduced
    next (record { number = some h; initialized = true })

  unfoldable pub of_point : CommitPoint o → Outcome (CommitPointHash o)
  unfolding new
  of_point point = finish do self ← call new; call (set self point)
