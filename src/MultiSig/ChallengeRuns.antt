-- ===== src/MultiSig/ChallengeRuns.antt =====
-- src/libSchnorr/src/MultiSig_Challenge.cpp: the challenge is made, where no call of OpenSSL fails.
use schnorr.Common.{
  ℕ, ◌+◌, ◌^◌, ◌≤◌, ◌<◌, ◌≡◌, ◌≢◌, refl, List, [], ◌∷◌, true, false, some, none, not, ap, slice,
  length, ltb, ◌==◌, add32, arith, ne→==, le→ltb,
}
use schnorr.Run.{
  returns, bad_alloc, finish, Run, Outcome, ◌>>=◌, or_throw-step, or_return-step,
  called_or_return-step, deref-step, call-step, return_if-step,
}
use schnorr.OpenSsl.{OpenSsl, nnmod}
use schnorr.OpenSsl.Laws.{Documented, NeverFails}
use schnorr.Keys.{PubKey}
use schnorr.Sha2
use schnorr.Sha2.Absorb.{new_lem, fresh, absorbed, update_range_inside}
use schnorr.Verify.{octets_or_return}
use schnorr.Verify.Steps.{finite-octets}
use schnorr.MultiSig.Objects.{number_new}
use schnorr.MultiSig.CommitPoint.{CommitPoint}
use schnorr.MultiSig.Challenge
use schnorr.MultiSig.Challenge.{Challenge}

module _ (o : OpenSsl) (doc : Documented o) (runs : NeverFails o doc.group doc.numbers) where
  open doc use {group, numbers, curve}

  octets-step :
      {R : Type 0} (p : o.Point) (r : R) (f : List ℕ → Run R R) {out : Outcome R}
      → curve.element p ≢ group.identity
      → finish (f (o.ec_point_point2oct p 33)) ≡ out
      → finish (octets_or_return o p r >>= f) ≡ out
  octets-step p r f finite h = rw (finite-octets o doc runs p finite) h

  challenge_set-returns :
      (self : Challenge o) (commit : CommitPoint o) (key : PubKey o) (message : List ℕ)
      (offset size : ℕ) (b : o.Bignum) (p : o.Point)
      → self.number ≡ some b
      → commit.initialized ≡ true
      → commit.point ≡ some p
      → curve.element p ≢ group.identity
      → curve.element key.p ≢ group.identity
      → 0 < length message
      → offset + size ≤ length message
      → offset + size < 2 ^ 32
      → (n : o.Bignum) × (Challenge.set o self commit key message offset size
          ≡ returns (record { number = some n; initialized = true }))
  unfolding Challenge.set
  challenge_set-returns self commit key message offset size b p own init held p_finite k_finite pos
        inside small =
      let start = Sha2.update o (fresh o) (0x11 ∷ []) in
      let keyed =
        Sha2.update o (Sha2.update o start (o.ec_point_point2oct p 33))
          (o.ec_point_point2oct key.p 33) in
      let hashed = absorbed o keyed (slice message offset size) in
      let (a, read) = runs.bin2bn (Sha2.finalize o hashed).0 in
      let (n, reduced) = runs.nnmod a none in
      (
        n,
        return_if-step (not commit.initialized) self _ (ap not init) (
            return_if-step (length message == 0) self _ (ne→== _ 0 (omega arith)) (
              return_if-step (ltb (length message) (add32 offset size)) self _
                (le→ltb _ _ (omega arith))
                (call-step (Sha2.new o 256) _ (new_lem o) (
                  deref-step commit.point _ held (
                    octets-step p _ _ p_finite (
                      octets-step key.p _ _ k_finite (
                        call-step (Sha2.update_range o keyed message offset size) _
                          (update_range_inside o keyed message offset size inside small)
                          (or_return-step (o.bn_bin2bn (Sha2.finalize o hashed).0) _ _ read (
                            deref-step self.number _ own (
                              called_or_return-step (nnmod o a o.curve_order none) _ _ reduced
                                refl)))))))))),
      )

  -- `Challenge(commit, key, message, offset, size)` gives an initialized challenge, where the commitment is
  -- initialized, its point and the key are finite, the message is not empty, the slice lies
  -- inside it, its end fits an `unsigned int`, and no call of OpenSSL fails.
  pub of_slice-returns :
      (commit : CommitPoint o) (key : PubKey o) (message : List ℕ) (offset size : ℕ) (p : o.Point)
      → commit.initialized ≡ true
      → commit.point ≡ some p
      → curve.element p ≢ group.identity
      → curve.element key.p ≢ group.identity
      → 0 < length message
      → offset + size ≤ length message
      → offset + size < 2 ^ 32
      → (n : o.Bignum) × (Challenge.of_slice o commit key message offset size
          ≡ returns (record { number = some n; initialized = true }))
  unfolding Challenge.of_slice number_new
  of_slice-returns commit key message offset size p init held p_finite k_finite pos inside small =
      let (b, new) = runs.bn_new in
      let self : Challenge o = record { number = some b; initialized = false } in
      let (n, set_eq) =
        challenge_set-returns self commit key message offset size b p refl init held p_finite
          k_finite pos inside small in
      (n, call-step (number_new o) _ (or_throw-step o.bn_new bad_alloc _ new refl) (rw set_eq))
