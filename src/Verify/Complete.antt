-- ===== src/Verify/Complete.antt =====
-- `Schnorr::Verify` of src/libSchnorr/src/Schnorr.cpp and `MultiSig::MultiSigVerify` of MultiSig.cpp, on signatures that
-- the scheme accepts.
use schnorr.Common.{
  ℕ, ◌+◌, ◌^◌, ◌<◌, ◌≡◌, List, some, none, [], ◌∷◌, true, length, ltb, ◌==◌, add32, arith, ne→==,
  le→ltb,
}
use schnorr.Run.{returns, return_if-step, call-step, or_throw-step}
use schnorr.OpenSsl.{OpenSsl}
use schnorr.OpenSsl.Laws.{Documented, NeverFails}
use schnorr.Keys.{PubKey, Signature}
use schnorr.Sha2
use schnorr.Sha2.Absorb.{new_lem, fresh, update-Holds}
use schnorr.Sizes.{third_domain_separated_hash_function_byte}
use schnorr.Verify.Accepts.{Accepts}
use schnorr.Verify.Check.{check_complete}
use schnorr.Verify.{verify_main, verify_slice, multi_sig_verify_main, multi_sig_verify_slice}

module _ (o : OpenSsl) (doc : Documented o) (runs : NeverFails o doc.group doc.numbers) where
  open doc use {hash}

  module _ (message : List ℕ) (offset size : ℕ) (sig : Signature o) (key : PubKey o)
      (small : offset + size < 2 ^ 32) where
    verify_main_complete :
        Accepts o doc [] message offset size sig key
        → verify_main o message offset size sig key ≡ returns true
    unfolding verify_main
    verify_main_complete t = call-step (Sha2.new o 256) _ (new_lem o) (
        or_throw-step o.bn_new _ _ runs.bn_new.1 (
          or_throw-step o.ec_point_new _ _ runs.point_new.1 (
            or_throw-step o.bn_ctx_new _ _ runs.bn_ctx_new.1 (
              check_complete o doc runs [] (fresh o) (some runs.bn_ctx_new.0) message offset size
                sig key hash.init_lem small t))))

    multi_sig_verify_main_complete :
        Accepts o doc (0x11 ∷ []) message offset size sig key
        → multi_sig_verify_main o message offset size sig key ≡ returns true
    unfolding multi_sig_verify_main
    multi_sig_verify_main_complete t = call-step (Sha2.new o 256) _ (new_lem o) (
        or_throw-step o.bn_new _ _ runs.bn_new.1 (
          or_throw-step o.ec_point_new _ _ runs.point_new.1 (
            or_throw-step o.bn_ctx_new _ _ runs.bn_ctx_new.1 (
              check_complete o doc runs (0x11 ∷ []) (Sha2.update o (fresh o) (0x11 ∷ [])) none
                message offset size sig key
                (update-Holds o hash (fresh o) [] (0x11 ∷ []) hash.init_lem) small t))))

    -- A signature that the scheme accepts is accepted by `Schnorr::Verify`, where no call of OpenSSL
    -- fails and the end of the slice fits an `unsigned int`.
    pub verify_slice_complete :
        Accepts o doc [] message offset size sig key
        → verify_slice o message offset size sig key ≡ returns true
    unfolding verify_slice
    verify_slice_complete t =
        return_if-step (length message == 0) _ _ (ne→== _ 0 (omega (arith, t.message_pos))) (
          return_if-step (ltb (length message) (add32 offset size)) _ _
            (le→ltb _ _ (omega (arith, t.inside))) (rw (verify_main_complete t)))

    -- A signature that the scheme accepts under the prefix 0x11 is accepted by `MultiSigVerify`, where
    -- no call of OpenSSL fails and the end of the slice fits an `unsigned int`.
    pub multi_sig_verify_slice_complete :
        Accepts o doc (third_domain_separated_hash_function_byte ∷ []) message offset size sig key
        → multi_sig_verify_slice o message offset size sig key ≡ returns true
    unfolding multi_sig_verify_slice
    multi_sig_verify_slice_complete t =
        return_if-step (length message == 0) _ _ (ne→== _ 0 (omega (arith, t.message_pos))) (
          return_if-step (ltb (length message) (add32 offset size)) _ _
            (le→ltb _ _ (omega (arith, t.inside))) (rw (multi_sig_verify_main_complete t)))
