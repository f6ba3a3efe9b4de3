-- ===== src/Verify/Check.antt =====
-- The part that `Schnorr::Verify` of src/libSchnorr/src/Schnorr.cpp and `MultiSig::MultiSigVerify` of MultiSig.cpp share,
-- against the scheme.
use schnorr.Common.{
  ◌≢◌, ◌^◌, subst, Bool, ◌+◌, Option, ℕ, ◌<◌, ◌≡◌, sym, List, true, false, some, length, slice,
  arith,
}
use schnorr.Run.{
  finish, returns, return_if-true, call-true, or_return-true, called_or_return-true,
  returns-injective,
}
use schnorr.OpenSsl.{OpenSsl, nnmod}
use schnorr.OpenSsl.Laws.{Documented}
use schnorr.Keys.{PubKey, Signature}
use schnorr.Sha2
use schnorr.Sha2.{Sha2}
use schnorr.Sha2.Absorb.{Holds, update_range-returns}
use schnorr.Verify.Accepts.{Accepts}
use schnorr.Verify.Steps.{
  finite-tested, out_of_range-false, octets-finite, octets_or_return-true, challenge_number,
}
use schnorr.Verify.{check, out_of_range, octets_or_return}
use schnorr.Run.{
  Run, Outcome, ◌>>=◌, return_if-step, or_return-step, called_or_return-step, call-step,
}
use schnorr.OpenSsl.Laws.{NeverFails}
use schnorr.Sha2.Absorb.{absorbed, update_range_inside}
use schnorr.Verify.Steps.{InRange-out_of_range, finite-octets, finite-at_infinity}

module _ (o : OpenSsl) (doc : Documented o) where
  open doc use {group, numbers, curve, hash}

  -- Where `check` ends in `true`, the scheme accepts the signature under the prefix that the hash
  -- object has absorbed.
  pub check_sound :
      (start : List ℕ) (sha2 : Sha2 o) (ctx : Option o.BnCtx) (message : List ℕ) (offset size : ℕ)
      (sig : Signature o) (key : PubKey o)
      → Holds o hash sha2 start
      → 0 < length message
      → finish (check o sha2 ctx message offset size sig key) ≡ returns true
      → Accepts o doc start message offset size sig key
  unfolding check
  check_sound start sha2 ctx message offset size sig key holds pos h4 =
      let (r_test, h5) = return_if-true (out_of_range o sig.r) _ h4 in
      let (s_test, h6) = return_if-true (out_of_range o sig.s) _ h5 in
      let (q, mul, h7) = or_return-true (o.ec_point_mul sig.s (some (key.p, sig.r))) _ h6 in
      let (infinity, h8) = return_if-true (o.ec_point_is_at_infinity q) _ h7 in
      let cs : List ℕ = o.ec_point_point2oct q 33 in
      let ks : List ℕ = o.ec_point_point2oct key.p 33 in
      let (c_test, h9) = octets_or_return-true o q _ h8 in
      let (k_test, h10) = octets_or_return-true o key.p _ h9 in
      let (hashed, run, h11) =
        call-true
          (Sha2.update_range o (Sha2.update o (Sha2.update o sha2 cs) ks) message offset size) _
          h10 in
      let (a, read, h12) = or_return-true (o.bn_bin2bn (Sha2.finalize o hashed).0) _ h11 in
      let (b, reduced, h13) = called_or_return-true (nnmod o a o.curve_order ctx) _ h12 in
      let equal = returns-injective h13 in
      let r_range = out_of_range-false o doc sig.r r_test in
      let s_range = out_of_range-false o doc sig.s s_test in
      let point = curve.mul_both sig.s sig.r key.p q s_range.nonneg r_range.nonneg mul in
      let (inside, e) = update_range-returns o _ hashed message offset size run in
      let (built, nonneg) =
        challenge_number o doc sha2 start q key.p (slice message offset size) a b ctx c_test k_test
          holds (subst (λ (h : Sha2 o). o.bn_bin2bn (Sha2.finalize o h).0 ≡ some a) e read)
          reduced in
      let cmp = numbers.cmp_lem b sig.r nonneg r_range.nonneg in
      let same : numbers.value b ≡ numbers.value sig.r = ground (arith, equal, cmp) in
      record {
        message_pos = pos;
        inside = inside;
        r_range = r_range;
        s_range = s_range;
        commitment_finite = rw point at (octets-finite o doc q c_test);
        key_finite = octets-finite o doc key.p k_test;
        challenge = rw (← same, ← point) built;
      }

module _ (o : OpenSsl) (doc : Documented o) (runs : NeverFails o doc.group doc.numbers) where
  open doc use {group, numbers, curve, hash}

  pub octets-step :
      (p : o.Point) (f : List ℕ → Run Bool Bool) {out : Outcome Bool}
      → length (o.ec_point_point2oct p 33) ≡ 33
      → finish (f (o.ec_point_point2oct p 33)) ≡ out
      → finish (octets_or_return o p false >>= f) ≡ out
  octets-step p f e h = rw e h

  pub check_complete :
      (start : List ℕ) (sha2 : Sha2 o) (ctx : Option o.BnCtx) (message : List ℕ) (offset size : ℕ)
      (sig : Signature o) (key : PubKey o)
      → Holds o hash sha2 start
      → offset + size < 2 ^ 32
      → Accepts o doc start message offset size sig key
      → finish (check o sha2 ctx message offset size sig key) ≡ returns true
  unfolding check
  check_complete start sha2 ctx message offset size sig key holds small t =
      let (q, mul) = runs.mul_both sig.s sig.r key.p in
      let point = curve.mul_both sig.s sig.r key.p q t.s_range.nonneg t.r_range.nonneg mul in
      let cs : List ℕ = o.ec_point_point2oct q 33 in
      let ks : List ℕ = o.ec_point_point2oct key.p 33 in
      let keyed = Sha2.update o (Sha2.update o sha2 cs) ks in
      let hashed = absorbed o keyed (slice message offset size) in
      let (a, read) = runs.bin2bn (Sha2.finalize o hashed).0 in
      let (c, reduced) = runs.nnmod a ctx in
      let finite : curve.element q ≢ group.identity = rw point t.commitment_finite in
      let (built, nonneg) =
        challenge_number o doc sha2 start q key.p (slice message offset size) a c ctx
          (finite-tested o doc runs q finite) (finite-tested o doc runs key.p t.key_finite) holds
          read reduced in
      let equal : numbers.value c ≡ numbers.value sig.r = rw (built, point) (sym t.challenge) in
      let cmp = numbers.cmp_lem c sig.r nonneg t.r_range.nonneg in
      return_if-step (out_of_range o sig.r) _ _ (InRange-out_of_range o doc sig.r t.r_range) (
        return_if-step (out_of_range o sig.s) _ _ (InRange-out_of_range o doc sig.s t.s_range) (
          or_return-step (o.ec_point_mul sig.s (some (key.p, sig.r))) _ _ mul (
            return_if-step (o.ec_point_is_at_infinity q) _ _ (finite-at_infinity o doc q finite) (
              octets-step q _ (finite-octets o doc runs q finite) (
                octets-step key.p _ (finite-octets o doc runs key.p t.key_finite) (
                  call-step (Sha2.update_range o keyed message offset size) _
                    (update_range_inside o keyed message offset size t.inside small)
                    (or_return-step (o.bn_bin2bn (Sha2.finalize o hashed).0) _ _ read (
                      called_or_return-step (nnmod o a o.curve_order ctx) _ _ reduced
                        (ground (arith, cmp, equal))))))))))
