-- ===== src/Serializable/Points.antt =====
-- src/libSchnorr/src/ECPOINTSerialize.cpp: `GetNumber` behind `SetNumber`.
use schnorr.Common.{
  subst, ℕ, ◌+◌, ◌^◌, ◌<◌, ◌≡◌, ◌≢◌, refl, sym, ◌∙◌, max, List, some, none, length, arith,
}
use schnorr.Common.Bytes.{be-lt}
use schnorr.Run.{returns, bad_alloc, or_throw-step, or_return-step}
use schnorr.OpenSsl.{OpenSsl}
use schnorr.OpenSsl.Laws.{Documented, NeverFails}
use schnorr.BignumSerialize
use schnorr.BignumSerialize.RoundTrip.{get_number-set_number}
use schnorr.BignumSerialize.Bounds.{fitting}
use schnorr.EcPointSerialize.{get_number, set_number}

module _ (o : OpenSsl) (doc : Documented o) (runs : NeverFails o doc.group doc.numbers) where
  open doc use {group, numbers, curve}

  -- A finite point that is written with `ECPOINTSerialize::SetNumber` at the size 33 is read from the same
  -- offset as a point of the same element, and the vector ends up as long as it was or just to the end of
  -- the place, where that end fits an `unsigned int` and no call of OpenSSL fails.
  pub point-get_number-set_number :
      (dst : List ℕ) (offset : ℕ) (p : o.Point)
      → offset + 33 < 2 ^ 32
      → curve.element p ≢ group.identity
      → (dst' : List ℕ) × (q : o.Point) × (set_number o dst offset 33 p ≡ returns dst')
        × (length dst' ≡ max (length dst) (offset + 33))
        × (get_number o dst' offset 33 ≡ returns (some q))
        × (curve.element q ≡ curve.element p)
  unfolding get_number set_number
  point-get_number-set_number dst offset p small finite =
      let (b, b_eq) = runs.point2bn p in
      let (b_value, b_nonneg) = curve.point2bn_lem p b b_eq in
      let e = curve.element p in
      let short : numbers.value b < 256 ^ 33 =
        subst (λ n. numbers.value b < 256 ^ n) (group.encode_finite e finite)
          (rw b_value (be-lt (group.encode e) (group.encode_bytes e))) in
      let fits = numbers.num_bytes-le b 33 short in
      let (a, read, a_value, a_nonneg) =
        get_number-set_number o doc runs dst offset 33 b small (omega arith) fits in
      let (q, q_eq) = runs.bn2point a e finite (a_value ∙ b_value) in
      let same =
        group.encode_injective _ _ (sym (curve.bn2point_lem a q q_eq) ∙ a_value ∙ b_value) in
      let ctx = runs.bn_ctx_new.1 in
      (
        BignumSerialize.set_number o dst offset 33 b,
        q,
        or_throw-step o.bn_ctx_new bad_alloc _ ctx
            (or_return-step (o.ec_point_point2bn p) dst _ b_eq refl),
        fitting o numbers dst offset 33 b small fits (omega arith),
        or_return-step
            (BignumSerialize.get_number o (BignumSerialize.set_number o dst offset 33 b) offset 33)
            none _ read (or_throw-step o.bn_ctx_new bad_alloc _ ctx (rw q_eq)),
        same,
      )
