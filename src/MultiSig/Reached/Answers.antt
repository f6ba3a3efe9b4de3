-- ===== src/MultiSig/Reached/Answers.antt =====
-- `MultiSig::VerifyResponse` of src/libSchnorr/src/MultiSig.cpp, for objects as the other functions leave them.
use schnorr.Common.{◌≡◌, Bool, false, not, some, inl, inr, ◌||◌}
use schnorr.Run.{returns, bad_alloc}
use schnorr.Run.Settles.{
  Settles, return_if-Settles, return_if_passed-Settles, or_return-Settles, or_throw-Settles,
  deref-Settles, catch_return-Settles,
}
use schnorr.OpenSsl.{OpenSsl}
use schnorr.Keys.{PubKey, is_lt}
use schnorr.MultiSig.Objects.{NumberObject}
use schnorr.MultiSig.CommitPoint.{CommitPoint, is_same}
use schnorr.MultiSig.Challenge.{Challenge}
use schnorr.MultiSig.Response.{Response}
use schnorr.MultiSig.Aggregate.{verify_response, verify_response_main}
use schnorr.MultiSig.Reached.{Reached, Invariant}
use schnorr.MultiSig.Reached.Safety.{Reached-Invariant}

module _ (o : OpenSsl) where
  number_of :
      (x : NumberObject o)
      → Invariant o x
      → not x.initialized ≡ false
      → (n : o.Bignum) × (x.number ≡ some n)
  number_of x (inl e) h = cc
  number_of x (inr held) h = held

  module _ (response : Response o) (challenge : Challenge o) (key : PubKey o)
      (commit : CommitPoint o) (p : o.Point) (held : commit.point ≡ some p)
      (r_reached : Reached o response) (c_reached : Reached o challenge) where
    main-Settles : Settles (verify_response_main o response challenge key commit)
    unfolding verify_response_main
    main-Settles = return_if_passed-Settles (not response.initialized) false _ (λ r_init.
        return_if_passed-Settles (not challenge.initialized) false _ (λ c_init.
          return_if-Settles (not commit.initialized) false _ (
            or_throw-Settles o.ec_point_new bad_alloc _ (λ q.
              or_throw-Settles o.bn_ctx_new bad_alloc _ (λ ctx.
                deref-Settles response.number _
                  (number_of response (Reached-Invariant o response r_reached) r_init).1
                  (λ r.
                    return_if-Settles (o.bn_is_zero r || not (is_lt (o.bn_cmp r o.curve_order)))
                      false _
                      (deref-Settles challenge.number _
                        (number_of challenge (Reached-Invariant o challenge c_reached) c_init).1
                        (λ c. or_return-Settles (o.ec_point_mul r (some (key.p, c))) false _ (λ x.
                          deref-Settles commit.point _ held (λ y.
                            return_if-Settles (not (is_same (o.ec_point_cmp x y))) false _
                              (tt)))))))))))

    -- `VerifyResponse` returns true or false, and throws nothing and follows no null pointer, for a commitment
    -- with a point, for a response and a challenge that the constructors, the copies, the assignments,
    -- `Deserialize`, the `Set` functions and `AggregateResponses` can leave, and whatever OpenSSL
    -- returns.
    pub verify_response-result :
        (b : Bool) × (verify_response o response challenge key commit ≡ returns b)
    unfolding verify_response
    verify_response-result =
        catch_return-Settles (verify_response_main o response challenge key commit) false
          main-Settles
