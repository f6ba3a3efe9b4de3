-- ===== src/Verify/Wraps.antt =====
-- Schnorr.cpp, `Schnorr::Verify`: a slice whose end is not a value of `unsigned int`.
use schnorr.Common.{
  ℕ, ◌+◌, ◌≤◌, ◌<◌, ◌≡◌, ◌≢◌, List, some, length, ltb, ◌==◌, add32, arith, ne→==, le→ltb,
}
use schnorr.Run.{
  Outcome, Run, faults, finish, call, return_if-step, call-step, or_throw-step, or_return-step,
  ◌>>=◌,
}
use schnorr.OpenSsl.{OpenSsl}
use schnorr.OpenSsl.Laws.{Documented, NeverFails}
use schnorr.Keys.{PubKey, Signature}
use schnorr.Sha2
use schnorr.Sha2.Absorb.{new_lem, fresh, update_range_wraps}
use schnorr.Verify.Accepts.{InRange, commitment_of}
use schnorr.Verify.Steps.{InRange-out_of_range, finite-octets, finite-at_infinity}
use schnorr.Verify.Check.{octets-step}
use schnorr.Verify.{verify_main, verify_slice, check, out_of_range}

call-faults :
    {R A : Type 0} (m : Outcome A) (f : A → Run R R) → m ≡ faults → finish (call m >>= f) ≡ faults
call-faults m f e = rw e

module _ (o : OpenSsl) (doc : Documented o) (runs : NeverFails o doc.group doc.numbers) where
  open doc use {group, numbers, curve, hash}

  module _ (message : List ℕ) (offset size : ℕ) (sig : Signature o) (key : PubKey o)
      (pos : 0 < length message) (outside : length message < offset + size)
      (wraps : add32 offset size ≤ length message) (r_range : InRange o doc sig.r)
      (s_range : InRange o doc sig.s)
      (commitment_finite : commitment_of o doc sig key ≢ group.identity)
      (key_finite : curve.element key.p ≢ group.identity) where
    check_wraps :
        finish (check o (fresh o) (some runs.bn_ctx_new.0) message offset size sig key) ≡ faults
    unfolding check
    check_wraps =
        let (q, mul) = runs.mul_both sig.s sig.r key.p in
        let point = curve.mul_both sig.s sig.r key.p q s_range.nonneg r_range.nonneg mul in
        let finite : curve.element q ≢ group.identity = rw point commitment_finite in
        let keyed =
          Sha2.update o (Sha2.update o (fresh o) (o.ec_point_point2oct q 33))
            (o.ec_point_point2oct key.p 33) in
        return_if-step (out_of_range o sig.r) _ _ (InRange-out_of_range o doc sig.r r_range) (
          return_if-step (out_of_range o sig.s) _ _ (InRange-out_of_range o doc sig.s s_range) (
            or_return-step (o.ec_point_mul sig.s (some (key.p, sig.r))) _ _ mul (
              return_if-step (o.ec_point_is_at_infinity q) _ _ (finite-at_infinity o doc q finite) (
                octets-step o doc runs q _ (finite-octets o doc runs q finite) (
                  octets-step o doc runs key.p _ (finite-octets o doc runs key.p key_finite) (
                    call-faults (Sha2.update_range o keyed message offset size) _
                      (update_range_wraps o keyed message offset size outside wraps)))))))

    main_wraps : verify_main o message offset size sig key ≡ faults
    unfolding verify_main
    main_wraps = call-step (Sha2.new o 256) _ (new_lem o) (
        or_throw-step o.bn_new _ _ runs.bn_new.1 (
          or_throw-step o.ec_point_new _ _ runs.point_new.1
            (or_throw-step o.bn_ctx_new _ _ runs.bn_ctx_new.1 check_wraps)))

    -- Where the slice does not lie inside the message, but its end, modulo 2^32, does, `Schnorr::Verify` does
    -- not refuse it: for a message that is not empty, r and s in [1, …, order - 1], and
    -- Q = sG + r * kpub and the key finite, and where no call of OpenSSL fails, it reads outside the
    -- message.
    pub verify_slice_wraps : verify_slice o message offset size sig key ≡ faults
    unfolding verify_slice
    verify_slice_wraps = return_if-step (length message == 0) _ _ (ne→== _ 0 (omega arith)) (
        return_if-step (ltb (length message) (add32 offset size)) _ _ (le→ltb _ _ wraps)
          (rw main_wraps))
