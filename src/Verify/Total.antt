-- ===== src/Verify/Total.antt =====
-- `Schnorr::Verify` of src/libSchnorr/src/Schnorr.cpp, `MultiSigVerify` and `VerifyKey` of MultiSig.cpp: whether they come
-- to a result whatever calls of OpenSSL fail.
use schnorr.Common.{
  ℕ, ◌+◌, ◌<◌, ◌%◌, ◌^◌, ◌≡◌, refl, ◌∙◌, List, [], ◌∷◌, Bool, false, not, length, ltb, ◌==◌, add32,
  Option, none, some, inl, inr, Bool-cases, ltb→lt, ltb→le, arith,
}
use schnorr.Run.{returns, throws, std_exception, bad_alloc, finish, finish-call}
use schnorr.Run.Settles.{
  Settles, return_if-Settles, tested-Settles, or_return-Settles, called_or_return-Settles,
  or_throw-Settles, call-Settles, catch_return-Settles, return_if-returns_some,
}
use schnorr.OpenSsl.{OpenSsl, nnmod}
use schnorr.Keys.{PubKey, Signature}
use schnorr.Sha2
use schnorr.Sha2.{Sha2}
use schnorr.Sha2.Absorb.{new_lem, update_range_inside}
use schnorr.Verify.{
  check, out_of_range, verify_main, verify_slice, verify, multi_sig_verify_main,
  multi_sig_verify_slice, multi_sig_verify, verify_key,
}

module _ (o : OpenSsl) where
  new-Settles : Settles (Sha2.new o 256)
  new-Settles = rw (new_lem o) tt

  pub update_range-throws :
      (s : Sha2 o) (input : List ℕ) (offset size : ℕ)
      → length input < offset + size
      → offset + size < 2 ^ 32
      → Sha2.update_range o s input offset size ≡ throws std_exception
  unfolding Sha2.update_range
  update_range-throws s input offset size outside small = ground (arith, outside, small)

  module _ (message : List ℕ) (offset size : ℕ) (sig : Signature o) (key : PubKey o)
      (small : offset + size < 2 ^ 32) where
    update_range-Settles : (s : Sha2 o) → Settles (Sha2.update_range o s message offset size)
    update_range-Settles s = elim (Bool-cases (ltb (length message) (offset + size))) [
      | inl e ↦ rw (update_range-throws s message offset size (ltb→lt _ _ e) small) tt
      | inr e ↦ rw (update_range_inside o s message offset size (ltb→le _ _ e) small) tt
    ]

    check-Settles :
        (s : Sha2 o) (ctx : Option o.BnCtx)
        → ((a : o.Bignum) → (c : Option o.Bignum) × (nnmod o a o.curve_order ctx ≡ returns c))
        → Settles (finish (check o s ctx message offset size sig key))
    unfolding check
    check-Settles s ctx comes_back = return_if-Settles (out_of_range o sig.r) false _ (
        return_if-Settles (out_of_range o sig.s) false _ (
          or_return-Settles (o.ec_point_mul sig.s (some (key.p, sig.r))) false _ (λ q.
            return_if-Settles (o.ec_point_is_at_infinity q) false _ (
              let commitment = o.ec_point_point2oct q 33 in
              let octets = o.ec_point_point2oct key.p 33 in
              tested-Settles (not (length commitment == 33)) false commitment _ (
                tested-Settles (not (length octets == 33)) false octets _ (
                  let keyed = Sha2.update o (Sha2.update o s commitment) octets in
                  call-Settles (Sha2.update_range o keyed message offset size) _
                    (update_range-Settles keyed)
                    (λ hashed.
                      or_return-Settles (o.bn_bin2bn (Sha2.finalize o hashed).0) false _ (λ n.
                        called_or_return-Settles (nnmod o n o.curve_order ctx) false _
                          (comes_back n).1 (λ c. tt)))))))))

    verify_main-Settles : Settles (verify_main o message offset size sig key)
    unfolding verify_main
    verify_main-Settles = call-Settles (Sha2.new o 256) _ new-Settles (λ s.
        or_throw-Settles o.bn_new bad_alloc _ (λ n.
          or_throw-Settles o.ec_point_new bad_alloc _ (λ p.
            or_throw-Settles o.bn_ctx_new bad_alloc _
              (λ ctx. check-Settles s (some ctx) (λ a. (o.bn_nnmod a o.curve_order ctx, refl))))))

    multi_sig_verify_main-Settles :
        ((a : o.Bignum) → (c : Option o.Bignum) × (o.bn_nnmod_null a o.curve_order ≡ returns c))
        → Settles (multi_sig_verify_main o message offset size sig key)
    unfolding multi_sig_verify_main
    multi_sig_verify_main-Settles comes_back = call-Settles (Sha2.new o 256) _ new-Settles (λ s.
        or_throw-Settles o.bn_new bad_alloc _ (λ n.
          or_throw-Settles o.ec_point_new bad_alloc _ (λ p.
            or_throw-Settles o.bn_ctx_new bad_alloc _
              (λ ctx. check-Settles (Sha2.update o s (0x11 ∷ [])) none comes_back))))

    verify_slice-result : (b : Bool) × (verify_slice o message offset size sig key ≡ returns b)
    unfolding verify_slice
    verify_slice-result =
        let (b, e) =
          catch_return-Settles (verify_main o message offset size sig key) false
            verify_main-Settles in
        let (b', e') =
          return_if-returns_some (ltb (length message) (add32 offset size)) false _
            (finish-call _ ∙ e) in
        return_if-returns_some (length message == 0) false _ e'

    multi_sig_verify_slice-result :
        ((a : o.Bignum) → (c : Option o.Bignum) × (o.bn_nnmod_null a o.curve_order ≡ returns c))
        → (b : Bool) × (multi_sig_verify_slice o message offset size sig key ≡ returns b)
    unfolding multi_sig_verify_slice
    multi_sig_verify_slice-result comes_back =
        let (b, e) =
          catch_return-Settles (multi_sig_verify_main o message offset size sig key) false
            (multi_sig_verify_main-Settles comes_back) in
        let (b', e') =
          return_if-returns_some (ltb (length message) (add32 offset size)) false _
            (finish-call _ ∙ e) in
        return_if-returns_some (length message == 0) false _ e'

  -- `Schnorr::Verify` of a slice returns true or false, and throws nothing and reads nothing outside the
  -- message, for every message, signature and key and whatever calls of OpenSSL fail, where the end of the
  -- slice fits an `unsigned int`; of a whole message it and `VerifyKey` always do.
  pub verify-returns :
      (message : List ℕ) (offset size : ℕ) (sig : Signature o) (key : PubKey o)
      → offset + size < 2 ^ 32
      → ((b : Bool) × (verify_slice o message offset size sig key ≡ returns b))
        × ((b : Bool) × (verify o message sig key ≡ returns b))
        × ((b : Bool) × (verify_key o message sig key ≡ returns b))
  unfolding verify verify_key
  verify-returns message offset size sig key small =
      let n = length message % 2 ^ 32 in
      let fits : 0 + n < 2 ^ 32 = omega arith in
      (
        verify_slice-result message offset size sig key small,
        verify_slice-result message 0 n sig key fits,
        verify_slice-result message 0 n sig key fits,
      )

  -- Where `BN_nnmod` comes back when it is given NULL for a context, with or without a number,
  -- `MultiSigVerify` of a slice returns true or false, and throws nothing and reads nothing outside the
  -- message, for every message, signature and key and whatever calls of OpenSSL fail, where the end of the
  -- slice fits an `unsigned int`; of a whole message it then always does.
  pub multi_sig_verify-returns :
      (message : List ℕ) (offset size : ℕ) (sig : Signature o) (key : PubKey o)
      → ((a : o.Bignum) → (c : Option o.Bignum) × (o.bn_nnmod_null a o.curve_order ≡ returns c))
      → offset + size < 2 ^ 32
      → ((b : Bool) × (multi_sig_verify_slice o message offset size sig key ≡ returns b))
        × ((b : Bool) × (multi_sig_verify o message sig key ≡ returns b))
  unfolding multi_sig_verify
  multi_sig_verify-returns message offset size sig key comes_back small =
      let n = length message % 2 ^ 32 in
      let fits : 0 + n < 2 ^ 32 = omega arith in
      (
        multi_sig_verify_slice-result message offset size sig key small comes_back,
        multi_sig_verify_slice-result message 0 n sig key fits comes_back,
      )
