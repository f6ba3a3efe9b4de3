-- ===== src/MultiSig/Reached/Safety.antt =====
-- src/libSchnorr/src/MultiSig_*.cpp: every number object, over its whole life.
use schnorr.Common.{ℕ, List, ◌≢◌, inl, refl, some, arith}
use schnorr.Run.{faults}
use schnorr.Run.Ends.{value_of}
use schnorr.OpenSsl.{OpenSsl}
use schnorr.MultiSig.Objects.{NumberObject, number_eq, number_serialize}
use schnorr.MultiSig.Reached.{
  Reached, Invariant, created, generated, unread, copied_of, assigned, deserialized, hash_set,
  challenge_set, response_set, summed,
}
use schnorr.MultiSig.Reached.Steps.{
  number_new-Invariant, generate-Invariant, number_copy-Invariant, number_assign-Invariant,
  number_deserialize-Invariant, hash_set-Invariant, challenge_set-Invariant, response_set-Invariant,
  aggregate_responses-Ends, InvariantOf,
}

module _ (o : OpenSsl) where
  -- Every object that the constructors, the copies, the assignments, `Deserialize`, the `Set` functions and
  -- `AggregateResponses` can leave, of the classes that hold a number, has that number where it is
  -- initialized, whatever OpenSSL returns.
  pub Reached-Invariant : (x : NumberObject o) → Reached o x → Invariant o x
  Reached-Invariant _ (created x e) = value_of (Invariant o) _ x (number_new-Invariant o) e
  Reached-Invariant _ (generated fuel w w' x e) =
      value_of _ _ (x, w') (generate-Invariant o fuel w) e
  Reached-Invariant _ unread = inl refl
  Reached-Invariant _ (copied_of src x r e) =
      value_of (Invariant o) _ x (number_copy-Invariant o src) e
  Reached-Invariant _ (assigned self src x r r' e) =
      value_of (Invariant o) _ x (number_assign-Invariant o self src) e
  Reached-Invariant _ (deserialized self size src offset r) =
      number_deserialize-Invariant o self size src offset (Reached-Invariant self r)
  Reached-Invariant _ (hash_set self x point r e) =
      value_of (Invariant o) _ x (hash_set-Invariant o self point (Reached-Invariant self r)) e
  Reached-Invariant _ (challenge_set self x commit key message offset size r e) =
      value_of (Invariant o) _ x
        (challenge_set-Invariant o self commit key message offset size (Reached-Invariant self r)) e
  Reached-Invariant _ (response_set self x secret challenge d r _ _ e) =
      value_of (Invariant o) _ x
        (response_set-Invariant o self secret challenge d (Reached-Invariant self r)) e
  Reached-Invariant _ (summed rs x e) =
      value_of (InvariantOf o) _ (some x) (aggregate_responses-Ends o rs) e

  -- `Serialize` and `operator==` of the objects that hold a number never use a null pointer, for objects that
  -- the constructors, the copies, the assignments, `Deserialize`, the `Set` functions and
  -- `AggregateResponses` can leave.
  pub Reached-faults_not :
      (x y : NumberObject o) (size : ℕ) (dst : List ℕ) (offset : ℕ)
      → Reached o x
      → Reached o y
      → (number_serialize o size x dst offset ≢ faults) × (number_eq o x y ≢ faults)
  unfolding number_serialize number_eq
  Reached-faults_not x y size dst offset rx ry =
      let whole_x = Reached-Invariant x rx in
      let whole_y = Reached-Invariant y ry in
      (λ e. ground (arith, whole_x), λ e. ground (arith, whole_x, whole_y))
