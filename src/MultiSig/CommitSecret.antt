-- ===== src/MultiSig/CommitSecret.antt =====
-- src/libSchnorr/src/MultiSig_CommitSecret.cpp: `class CommitSecret`.
use schnorr.Common.{ℕ, zero, suc, List, Bool, true, false, none, some}
use schnorr.Run.{Outcome, returns, out_of_fuel, bad_alloc, finish, or_throw, call, ◌>>=◌}
use schnorr.OpenSsl.{OpenSsl}
use schnorr.Sizes.{commit_secret_size}
use schnorr.MultiSig.Objects.{
  NumberObject, number_copy, number_assign, number_eq, number_serialize, number_deserialize, blank,
}

abbrev pub CommitSecret : OpenSsl → Type 0
CommitSecret o = NumberObject o

module _ (o : OpenSsl) where
  -- The loop of `CommitSecret()`; the flag is `!err`.
  unfoldable pub draw : ℕ → o.Bignum → o.World → Outcome (CommitSecret o × o.World)
  draw zero n w = out_of_fuel
  draw (suc fuel) n w =
      let (drawn, w') = o.bn_rand_range o.curve_order w in
      elim drawn [
        | none ↦ returns (record { number = some n; initialized = false }, w')
        | some n' ↦ elim (o.bn_is_zero n') [
          | true ↦ draw fuel n' w'
          | false ↦ returns (record { number = some n'; initialized = true }, w')
        ]
      ]

  unfoldable pub generate : ℕ → o.World → Outcome (CommitSecret o × o.World)
  generate fuel w = finish do n ← or_throw o.bn_new bad_alloc; call (draw fuel n w)

  unfoldable pub copy : CommitSecret o → Outcome (CommitSecret o)
  unfolding number_copy
  copy src = number_copy o src

  unfoldable pub assign : CommitSecret o → CommitSecret o → Outcome (CommitSecret o)
  unfolding number_assign
  assign self src = number_assign o self src

  unfoldable pub eq : CommitSecret o → CommitSecret o → Outcome Bool
  unfolding number_eq
  eq self r = number_eq o self r

  unfoldable pub serialize : CommitSecret o → List ℕ → ℕ → Outcome (List ℕ × Bool)
  unfolding number_serialize
  serialize self dst offset = number_serialize o commit_secret_size self dst offset

  -- This `Deserialize` ends in `return 0`, also where it has succeeded.
  unfoldable pub deserialize : CommitSecret o → List ℕ → ℕ → CommitSecret o × Bool
  unfolding number_deserialize
  deserialize self src offset = ((number_deserialize o commit_secret_size self src offset).0, false)

  unfoldable pub from_bytes : List ℕ → ℕ → CommitSecret o
  unfolding deserialize
  from_bytes src offset = (deserialize (blank o) src offset).0
