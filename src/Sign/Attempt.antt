-- ===== src/Sign/Attempt.antt =====
-- Schnorr.cpp, `Schnorr::Sign`: one round of the outer loop, and the draw of a nonce.
use schnorr.Common.{
  ◌-◌, ℕ, ◌*◌, ◌%◌, ◌<◌, ◌≤◌, ◌+◌, ◌-◌, ◌≡◌, ◌≢◌, sym, ap, ◌∙◌, subst, List, [], true, false, none,
  some, slice, length, arith,
}
use schnorr.Run.{returns, finish, Run, ◌>>=◌}
use schnorr.Common.Bytes.{be}
use schnorr.OpenSsl.{OpenSsl}
use schnorr.OpenSsl.Group
use schnorr.OpenSsl.Laws.{Documented, times}
use schnorr.Keys.{PrivKey, PubKey, Signature}
use schnorr.Sha2
use schnorr.Sha2.{Sha2}
use schnorr.Sha2.Absorb.{Holds, update_range-returns}
use schnorr.Verify.Accepts.{Accepts, commitment_of, transcript}
use schnorr.Verify.Steps.{octets-finite, challenge_number}
use schnorr.Sign.{Signed, attempt}
use schnorr.Sign.Steps.{or_return-then, call-then, octets_or_return-then}
use mathlib.Core.Path.{ap₂}
use native.Mathlib.Nat.{mod-lt, mod-eq_of_lt}

module _ (o : OpenSsl) (doc : Documented o) where
  open doc use {group, numbers, curve, hash}

  pub refused :
      (s t : Signature o) (w v : o.World) → ¬ (◌≡◌ {A = Signed o} (false, s, w) (true, t, v))
  refused s t w v e = cc (ap (λ (x : Signed o). x.0) e)

  module _ (message : List ℕ) (offset size : ℕ) (privkey : PrivKey o) (pubkey : PubKey o)
      (d_nonneg : o.bn_is_negative privkey.d ≡ false)
      (pair : curve.element pubkey.p ≡ times group (numbers.value privkey.d) group.generator)
      (pos : 0 < length message) where
    -- A signature that is accepted but for numbers that are zero.
    abbrev pub Candidate : Signature o → Type 0
    Candidate made =
        0 < numbers.value made.r
        → 0 < numbers.value made.s
        → Accepts o doc [] message offset size made pubkey

    candidate :
        (k : o.Bignum) (p : o.Point) (r product s : o.Bignum)
        → offset + size ≤ length message
        → curve.element p ≡ times group (numbers.value k) group.generator
        → curve.element p ≢ group.identity
        → curve.element pubkey.p ≢ group.identity
        → numbers.value r
          ≡ be (
              hash.digest (
                transcript o doc []
                  (curve.element p)
                  (curve.element pubkey.p)
                  (slice message offset size)))
            % numbers.order
        → o.bn_is_negative r ≡ false
        → numbers.value product ≡ numbers.value r * numbers.value privkey.d % numbers.order
        → numbers.value s
          ≡ (numbers.value k + (numbers.order - numbers.value product % numbers.order))
            % numbers.order
        → o.bn_is_negative s ≡ false
        → Candidate (record { r = r; s = s })
    candidate k p r product s inside element p_finite key_finite r_value r_nonneg product_value
          s_value s_nonneg r_pos s_pos =
        let order_pos : 0 < numbers.order = omega (arith, numbers.one_lt_order) in
        let once = mod-eq_of_lt (mod-lt (numbers.value r * numbers.value privkey.d) order_pos) in
        let sig : Signature o = record { r = r; s = s } in
        let commitment : commitment_of o doc sig pubkey ≡ curve.element p =
          ap₂ (λ x y. group.add (times group x group.generator) (times group (numbers.value r) y))
            (s_value
              ∙ ap (λ y. (numbers.value k + (numbers.order - y)) % numbers.order)
                  (ap (λ y. y % numbers.order) product_value ∙ once))
            pair
          ∙ Group.rebuilt group numbers.order curve.order_times (numbers.value k) (numbers.value r)
              (numbers.value privkey.d) order_pos
          ∙ sym element in
        record {
          message_pos = pos;
          inside = inside;
          r_range = record { nonneg = r_nonneg; pos = r_pos; lt = rw r_value (mod-lt _ order_pos) };
          s_range = record { nonneg = s_nonneg; pos = s_pos; lt = rw s_value (mod-lt _ order_pos) };
          commitment_finite = λ e. p_finite (sym commitment ∙ e);
          key_finite = key_finite;
          challenge =
              r_value
              ∙ ap
                  (λ e.
                    be (
                      hash.digest (
                        transcript o doc [] e (curve.element pubkey.p) (slice message offset size)))
                    % numbers.order)
                  (sym commitment);
        }

    -- A round that goes on has made such a signature, and its hash object is fresh again.
    pub attempt-then :
        (ctx : o.BnCtx) (k : o.Bignum) (sha2 : Sha2 o) (result : Signature o) (w : o.World)
        (g : Signature o × Sha2 o → Run (Signed o) (Signed o)) (t : Signature o) (v : o.World)
        → o.bn_is_negative k ≡ false
        → Holds o hash sha2 []
        → finish (attempt o message offset size privkey pubkey ctx k sha2 result w >>= g)
          ≡ returns (true, t, v)
        → (made : Signature o) × (next_sha : Sha2 o) × Candidate made
          × Holds o hash next_sha []
          × (finish (g (made, next_sha)) ≡ returns (true, t, v))
    unfolding attempt Sha2.reset
    attempt-then ctx k sha2 result w g t v k_nonneg holds h =
        let x : Signed o = (true, t, v) in
        let (q, mul, h1) =
          or_return-then (o.ec_point_mul k none) (false, result, w) _ g x (refused result t w v)
            h in
        let (q_test, h2) =
          octets_or_return-then o q (false, result, w) _ g x (refused result t w v) h1 in
        let (k_test, h3) =
          octets_or_return-then o pubkey.p (false, result, w) _ g x (refused result t w v) h2 in
        let keyed =
          Sha2.update o (Sha2.update o sha2 (o.ec_point_point2oct q 33))
            (o.ec_point_point2oct pubkey.p 33) in
        let (hashed, run, h4) =
          call-then (Sha2.update_range o keyed message offset size) _ g x h3 in
        let (inside, e) = update_range-returns o keyed hashed message offset size run in
        let (a, read, h5) =
          or_return-then (o.bn_bin2bn (Sha2.finalize o hashed).0) (false, result, w) _ g x
            (refused result t w v) h4 in
        let (r, reduced, h6) =
          or_return-then (o.bn_nnmod a o.curve_order ctx) (false, record result { r = a }, w) _ g x
            (refused _ t w v) h5 in
        let (product, multiplied, h7) =
          or_return-then (o.bn_mod_mul r privkey.d o.curve_order)
            (false, record result { r = r }, w) _ g x (refused _ t w v) h6 in
        let (s, subtracted, h8) =
          or_return-then (o.bn_mod_sub k product o.curve_order)
            (false, record { r = r; s = product }, w) _ g x (refused _ t w v) h7 in
        let (r_value, r_nonneg) =
          challenge_number o doc sha2 [] q pubkey.p (slice message offset size) a r (some ctx)
            q_test k_test holds
            (subst (λ (s : Sha2 o). o.bn_bin2bn (Sha2.finalize o s).0 ≡ some a) e read)
            (ap returns reduced) in
        let (product_value, product_nonneg) =
          numbers.mod_mul_lem r privkey.d product r_nonneg d_nonneg multiplied in
        let (s_value, s_nonneg) =
          numbers.mod_sub_lem k product s k_nonneg product_nonneg subtracted in
        (
          record { r = r; s = s },
          Sha2.reset o (Sha2.finalize o hashed).1,
          candidate k q r product s inside (curve.mul_generator k q k_nonneg mul)
              (octets-finite o doc q q_test) (octets-finite o doc pubkey.p k_test) r_value r_nonneg
              product_value s_value s_nonneg,
          hash.init_lem,
          h8,
        )
