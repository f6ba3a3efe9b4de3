-- ===== src/MultiSig/Answers.antt =====
-- `MultiSig::VerifyResponse` of src/libSchnorr/src/MultiSig.cpp.
use schnorr.Verify.Steps.{eq-cmp}
use schnorr.Common.{inr, inl, ◌<◌, ◌≡◌, ◌↔◌, sym, ap, ◌∙◌, ◌||◌, true, false, some, not, arith}
use schnorr.Common.{Bool, true, Bool-cases, refl, Option}
use schnorr.Run.{
  return_if-stop, deref, or_return, return_if, finish, next, ◌>>=◌, ◌>>◌, returns, bad_alloc,
  catch_return-true, catch_return, return_if-true, or_throw-true, or_return-true, deref-returns,
  or_throw-step, or_return-step, deref-step, return_if-step,
}
use schnorr.OpenSsl.{OpenSsl, same, PointOrder}
use schnorr.OpenSsl.Laws.{Documented, NeverFails, times}
use schnorr.Keys.{PubKey, is_lt}
use schnorr.MultiSig.CommitPoint.{CommitPoint, is_same}
use schnorr.MultiSig.Challenge.{Challenge}
use schnorr.MultiSig.Response.{Response}
use schnorr.MultiSig.Signer.{HoldsNumber}
use schnorr.MultiSig.Aggregate.{verify_response, verify_response_main}
use mathlib.Core.Option.{some-injective}

is_same-same : (c : PointOrder) → not (is_same c) ≡ false → c ≡ same
is_same-same c h = ground arith

last_test : (b : Bool) → finish (return_if b false >> next true) ≡ returns (not b)
last_test true = refl
last_test false = refl

module _ (o : OpenSsl) (doc : Documented o) (runs : NeverFails o doc.group doc.numbers) where
  open doc use {group, numbers, curve}

  -- What a call that returned `true` has found and passed.
  pub record Passed (response : Response o) (challenge : Challenge o) (key : PubKey o)
      (commit : CommitPoint o) : Type 0 where
    pub response_number : o.Bignum
    pub challenge_number : o.Bignum
    pub rebuilt : o.Point
    pub point : o.Point
    pub response_initialized : response.initialized ≡ true
    pub response_held : response.number ≡ some response_number
    pub challenge_initialized : challenge.initialized ≡ true
    pub challenge_held : challenge.number ≡ some challenge_number
    pub commit_initialized : commit.initialized ≡ true
    pub committed : commit.point ≡ some point
    pub in_range :
        (o.bn_is_zero response_number || not (is_lt (o.bn_cmp response_number o.curve_order)))
        ≡ false
    pub multiplied : o.ec_point_mul response_number (some (key.p, challenge_number)) ≡ some rebuilt
    pub met : o.ec_point_cmp rebuilt point ≡ same

  main_Passed :
      (response : Response o) (challenge : Challenge o) (key : PubKey o) (commit : CommitPoint o)
      → verify_response_main o response challenge key commit ≡ returns true
      → Passed response challenge key commit
  unfolding verify_response_main
  main_Passed response challenge key commit h =
      let (r_init, h1) = return_if-true (not response.initialized) _ h in
      let (c_init, h2) = return_if-true (not challenge.initialized) _ h1 in
      let (p_init, h3) = return_if-true (not commit.initialized) _ h2 in
      let (_, _, h4) = or_throw-true o.ec_point_new bad_alloc _ h3 in
      let (_, _, h5) = or_throw-true o.bn_ctx_new bad_alloc _ h4 in
      let (a, a_eq, h6) = deref-returns response.number _ true h5 in
      let (test, h7) =
        return_if-true (o.bn_is_zero a || not (is_lt (o.bn_cmp a o.curve_order))) _ h6 in
      let (b, b_eq, h8) = deref-returns challenge.number _ true h7 in
      let (q, mul, h9) = or_return-true (o.ec_point_mul a (some (key.p, b))) _ h8 in
      let (x, x_eq, h10) = deref-returns commit.point _ true h9 in
      let (equal, _) = return_if-true (not (is_same (o.ec_point_cmp q x))) _ h10 in
      record {
        response_number = a;
        challenge_number = b;
        rebuilt = q;
        point = x;
        response_initialized = ground (arith, r_init);
        response_held = a_eq;
        challenge_initialized = ground (arith, c_init);
        challenge_held = b_eq;
        commit_initialized = ground (arith, p_init);
        committed = x_eq;
        in_range = test;
        multiplied = mul;
        met = is_same-same _ equal;
      }

  pub verify_response-Passed :
      (response : Response o) (challenge : Challenge o) (key : PubKey o) (commit : CommitPoint o)
      → verify_response o response challenge key commit ≡ returns true
      → Passed response challenge key commit
  unfolding verify_response
  verify_response-Passed response challenge key commit h =
      main_Passed response challenge key commit (catch_return-true _ h)

  module _ (response : Response o) (challenge : Challenge o) (key : PubKey o)
      (commit : CommitPoint o) (r c : o.Bignum) (p : o.Point)
      (r_holds : HoldsNumber o doc runs response r) (c_holds : HoldsNumber o doc runs challenge c)
      (p_init : commit.initialized ≡ true) (p_held : commit.point ≡ some p) where
    -- sG + c * kpub is the commitment, for a number s in [1, …, order - 1].
    abbrev pub Answers : Type 0
    Answers =
        (0 < numbers.value r)
        × (numbers.value r < numbers.order)
        × (group.add (times group (numbers.value r) group.generator)
              (times group (numbers.value c) (curve.element key.p))
            ≡ curve.element p)

    range_lem :
        (o.bn_is_zero r || not (is_lt (o.bn_cmp r o.curve_order))) ≡ false
        ↔ ((0 < numbers.value r) × (numbers.value r < numbers.order))
    range_lem =
        let cmp = numbers.cmp_lem r o.curve_order r_holds.2 numbers.curve_order_nonneg in
        ground (arith, cmp, numbers.value-curve_order, numbers.is_zero_lem r)

    main_sound : verify_response_main o response challenge key commit ≡ returns true → Answers
    main_sound h =
        let t = main_Passed response challenge key commit h in
        let a_r : t.response_number ≡ r = some-injective _ _ (sym t.response_held ∙ r_holds.1) in
        let b_c : t.challenge_number ≡ c = some-injective _ _ (sym t.challenge_held ∙ c_holds.1) in
        let x_p : t.point ≡ p = some-injective _ _ (sym t.committed ∙ p_held) in
        let (pos, lt) = range_lem.0 (rw a_r at t.in_range) in
        let mul : o.ec_point_mul r (some (key.p, c)) ≡ some t.rebuilt =
          rw (a_r, b_c) at t.multiplied in
        let point = curve.mul_both r c key.p t.rebuilt r_holds.2 c_holds.2 mul in
        (pos, lt, sym point ∙ curve.same_lem t.rebuilt t.point t.met ∙ ap curve.element x_p)

    main_complete : Answers → verify_response_main o response challenge key commit ≡ returns true
    unfolding verify_response_main
    main_complete (pos, lt, e) =
        let (q, mul) = runs.mul_both r c key.p in
        let point = curve.mul_both r c key.p q r_holds.2 c_holds.2 mul in
        let met : o.ec_point_cmp q p ≡ same = eq-cmp o doc runs q p (point ∙ e) in
        return_if-step (not response.initialized) false _ (ap not r_holds.0) (
          return_if-step (not challenge.initialized) false _ (ap not c_holds.0) (
            return_if-step (not commit.initialized) false _ (ap not p_init) (
              or_throw-step o.ec_point_new bad_alloc _ runs.point_new.1 (
                or_throw-step o.bn_ctx_new bad_alloc _ runs.bn_ctx_new.1 (
                  deref-step response.number _ r_holds.1 (
                    return_if-step (o.bn_is_zero r || not (is_lt (o.bn_cmp r o.curve_order))) false
                      _ (range_lem.1 (pos, lt))
                      (deref-step challenge.number _ c_holds.1 (
                        or_return-step (o.ec_point_mul r (some (key.p, c))) false _ mul
                          (deref-step commit.point _ p_held (rw met))))))))))

    main_returns : (b : Bool) × (verify_response_main o response challenge key commit ≡ returns b)
    unfolding verify_response_main
    main_returns =
        let (q, mul) = runs.mul_both r c key.p in
        let test = o.bn_is_zero r || not (is_lt (o.bn_cmp r o.curve_order)) in
        let met = not (is_same (o.ec_point_cmp q p)) in
        let tail = λ (t : Option o.Bignum).
          (deref t >>= λ n. or_return (o.ec_point_mul r (some (key.p, n))) false >>= λ x.
          deref commit.point >>= λ y.
          return_if (not (is_same (o.ec_point_cmp x y))) false >> next true) in
        let ended : (b : Bool) × (finish (return_if test false >> tail challenge.number)
              ≡ returns b) =
          elim (Bool-cases test) [
            | inl e ↦ (false, return_if-stop test false _ e)
            | inr e ↦ (
              not met,
              return_if-step test false _ e (
                  deref-step challenge.number _ c_holds.1 (
                    or_return-step (o.ec_point_mul r (some (key.p, c))) false _ mul
                      (deref-step commit.point _ p_held (last_test met)))),
            )
          ] in
        (
          ended.0,
          return_if-step (not response.initialized) false _ (ap not r_holds.0) (
              return_if-step (not challenge.initialized) false _ (ap not c_holds.0) (
                return_if-step (not commit.initialized) false _ (ap not p_init) (
                  or_throw-step o.ec_point_new bad_alloc _ runs.point_new.1 (
                    or_throw-step o.bn_ctx_new bad_alloc _ runs.bn_ctx_new.1
                      (deref-step response.number _ r_holds.1 ended.1))))),
        )

    -- It returns, and throws no exception.
    pub verify_response-returns :
        (b : Bool) × (verify_response o response challenge key commit ≡ returns b)
    unfolding verify_response
    verify_response-returns = let (b, e) = main_returns in (b, ap (λ x. catch_return x false) e)

    -- For an initialized response, challenge and commitment that hold the numbers r and c, not negative,
    -- and a point, and where no call of OpenSSL fails, `VerifyResponse` returns `true` exactly where r is in
    -- [1, …, order - 1] and r * G + c * kpub is the commitment.
    pub verify_response-Answers :
        (verify_response o response challenge key commit ≡ returns true) ↔ Answers
    unfolding verify_response
    verify_response-Answers = (
      λ h. main_sound (catch_return-true _ h),
      λ h. ap (λ x. catch_return x false) (main_complete h),
    )
