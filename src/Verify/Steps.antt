-- ===== src/Verify/Steps.antt =====
-- Schnorr.cpp, `Schnorr::Verify`: the tests and the steps of its body, one by one.
use schnorr.Common.Bytes.{be}
use schnorr.Common.{
  Option, ◌%◌, ℕ, ◌≡◌, ◌≢◌, refl, ap, List, Bool, ◌++◌, true, false, some, length, arith, not, ◌==◌,
  Bool-cases, inl, inr, ◌∙◌,
}
use schnorr.OpenSsl.{OpenSsl, nnmod, PointOrder, same, different, cmp_error}
use schnorr.OpenSsl.Laws.{Documented, NeverFails}
use schnorr.Sha2
use schnorr.Sha2.{Sha2}
use schnorr.Sha2.Absorb.{Holds, update-Holds, finalize-Holds, absorbed}
use schnorr.Verify.Accepts.{InRange}
use schnorr.Verify.{out_of_range, octets_or_return}
use schnorr.Run.{returns-injective, Run, returns, finish, return_if, next, ◌>>=◌, ◌>>◌}

guarded :
    {R : Type 0} (b : Bool) (r : R) (xs : List ℕ) (f : List ℕ → Run R R) (x : R)
    → ¬ (r ≡ x)
    → finish ((return_if b r >> next xs) >>= f) ≡ returns x
    → (b ≡ false) × (finish (f xs) ≡ returns x)
guarded true r xs f x ne h = absurd (ne (returns-injective h))
guarded false r xs f x ne h = (refl, h)

-- A body that goes on with the octets of a point, and ends otherwise than it would without them.
pub octets_or_return-returns :
    {R : Type 0} (o : OpenSsl) (p : o.Point) (r : R) (f : List ℕ → Run R R) (x : R)
    → ¬ (r ≡ x)
    → finish (octets_or_return o p r >>= f) ≡ returns x
    → (not (length (o.ec_point_point2oct p 33) == 33) ≡ false)
      × (finish (f (o.ec_point_point2oct p 33)) ≡ returns x)
octets_or_return-returns o p r f x ne h =
    guarded (not (length (o.ec_point_point2oct p 33) == 33)) r (o.ec_point_point2oct p 33) f x ne h

-- A body that goes on with the octets of a point.
pub octets_or_return-true :
    (o : OpenSsl) (p : o.Point) (f : List ℕ → Run Bool Bool)
    → finish (octets_or_return o p false >>= f) ≡ returns true
    → (not (length (o.ec_point_point2oct p 33) == 33) ≡ false)
      × (finish (f (o.ec_point_point2oct p 33)) ≡ returns true)
octets_or_return-true o p f h = octets_or_return-returns o p false f true (λ e. cc) h

not_other : (c : PointOrder) → c ≢ different → c ≢ cmp_error → c ≡ same
not_other same d e = refl
not_other different d e = absurd (d refl)
not_other cmp_error d e = absurd (e refl)

module _ (o : OpenSsl) (doc : Documented o) where
  open doc use {group, numbers, curve, hash}

  -- The range test passes exactly the numbers in range.
  pub out_of_range-false : (x : o.Bignum) → out_of_range o x ≡ false → InRange o doc x
  unfolding out_of_range
  out_of_range-false x h =
      let nonneg : o.bn_is_negative x ≡ false = ground arith in
      let cmp = numbers.cmp_lem x o.curve_order nonneg numbers.curve_order_nonneg in
      record {
        nonneg = nonneg;
        pos = ground (arith, numbers.is_zero_lem x);
        lt = ground (arith, cmp, numbers.value-curve_order);
      }

  pub InRange-out_of_range : (x : o.Bignum) → InRange o doc x → out_of_range o x ≡ false
  unfolding out_of_range
  InRange-out_of_range x r =
      let cmp = numbers.cmp_lem x o.curve_order r.nonneg numbers.curve_order_nonneg in
      ground (arith, cmp, numbers.value-curve_order, numbers.is_zero_lem x, r.nonneg, r.pos, r.lt)

  -- What is written is the encoding, where the test of the length passes, and the point is finite.
  pub tested_octets :
      (p : o.Point)
      → not (length (o.ec_point_point2oct p 33) == 33) ≡ false
      → o.ec_point_point2oct p 33 ≡ group.encode (curve.element p)
  tested_octets p h = curve.point2oct_lem p (ground (arith, h))

  pub octets-finite :
      (p : o.Point)
      → not (length (o.ec_point_point2oct p 33) == 33) ≡ false
      → curve.element p ≢ group.identity
  octets-finite p h e =
      let short = tested_octets p h ∙ ap group.encode e ∙ group.encode_identity in
      cc (rw short at h)

  -- What the hash object gives in the end.
  pub digest_lem :
      (s : Sha2 o) (xs a b m : List ℕ)
      → Holds o hash s xs
      → (Sha2.finalize o (absorbed o (Sha2.update o (Sha2.update o s a) b) m)).0
        ≡ hash.digest (((xs ++ a) ++ b) ++ m)
  digest_lem s xs a b m h = finalize-Holds o hash _ (((xs ++ a) ++ b) ++ m) (
      hash.update_lem _ ((xs ++ a) ++ b) m
        (update-Holds o hash _ (xs ++ a) b (update-Holds o hash s xs a h)))

  -- The number that is built from what a hash object has absorbed, two points and a slice.
  pub challenge_number :
      (s : Sha2 o) (xs : List ℕ) (q k : o.Point) (m : List ℕ) (a c : o.Bignum)
      (ctx : Option o.BnCtx)
      → not (length (o.ec_point_point2oct q 33) == 33) ≡ false
      → not (length (o.ec_point_point2oct k 33) == 33) ≡ false
      → Holds o hash s xs
      → o.bn_bin2bn
          (Sha2.finalize o (
            absorbed o
              (Sha2.update o
                (Sha2.update o s (o.ec_point_point2oct q 33))
                (o.ec_point_point2oct k 33))
              m)).0
        ≡ some a
      → nnmod o a o.curve_order ctx ≡ returns (some c)
      → (numbers.value c
          ≡ be (
              hash.digest
                (((xs ++ group.encode (curve.element q)) ++ group.encode (curve.element k)) ++ m))
            % numbers.order)
        × (o.bn_is_negative c ≡ false)
  challenge_number s xs q k m a c ctx q_test k_test holds read reduced =
      let (value, nonneg) = numbers.bin2bn_lem _ a read in
      let (rest, rest_nonneg) = numbers.nnmod_lem a c ctx nonneg reduced in
      let digest =
        digest_lem s xs (o.ec_point_point2oct q 33) (o.ec_point_point2oct k 33) m holds in
      (rw (rest, value, digest, tested_octets q q_test, tested_octets k k_test), rest_nonneg)

  -- The test for the neutral point.
  pub finite-at_infinity :
      (p : o.Point) → curve.element p ≢ group.identity → o.ec_point_is_at_infinity p ≡ false
  finite-at_infinity p h = elim (Bool-cases (o.ec_point_is_at_infinity p)) [
    | inl yes_it_is ↦ absurd (h ((curve.at_infinity_lem p).0 yes_it_is))
    | inr e ↦ e
  ]

  module _ (runs : NeverFails o group numbers) where
    pub finite-octets :
        (p : o.Point) → curve.element p ≢ group.identity → length (o.ec_point_point2oct p 33) ≡ 33
    finite-octets p h = runs.point2oct p (finite-at_infinity p h)

    pub finite-tested :
        (p : o.Point)
        → curve.element p ≢ group.identity
        → not (length (o.ec_point_point2oct p 33) == 33) ≡ false
    finite-tested p h = rw (finite-octets p h)

    -- Points that stand for one element compare as equal.
    pub eq-cmp : (p q : o.Point) → curve.element p ≡ curve.element q → o.ec_point_cmp p q ≡ same
    eq-cmp p q e =
        not_other (o.ec_point_cmp p q) (λ d. curve.different_lem p q d e) (runs.point_cmp p q)
