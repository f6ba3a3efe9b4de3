-- ===== src/Verify/Sound.antt =====
-- `Schnorr::Verify` of src/libSchnorr/src/Schnorr.cpp and `MultiSig::MultiSigVerify` of MultiSig.cpp, where they return
-- `true`.
use schnorr.Common.{
  ℕ, ◌<◌, ◌≡◌, sym, List, some, none, [], ◌∷◌, true, false, length, ltb, ◌==◌, add32, arith, ◌∙◌,
}
use schnorr.Run.{
  returns, return_if-true, call-true, or_throw-true, catch_return-true, catch_return,
  returns-injective, finish-call,
}
use schnorr.OpenSsl.{OpenSsl}
use schnorr.OpenSsl.Laws.{Documented}
use schnorr.Keys.{PubKey, Signature}
use schnorr.Sha2
use schnorr.Sha2.Absorb.{Holds, new_lem, fresh, update-Holds}
use schnorr.Sizes.{third_domain_separated_hash_function_byte}
use schnorr.Verify.Accepts.{Accepts}
use schnorr.Verify.Check.{check_sound}
use schnorr.Verify.{verify_main, verify_slice, multi_sig_verify_main, multi_sig_verify_slice}

module _ (o : OpenSsl) (doc : Documented o) where
  open doc use {hash}

  -- The hash object that a constructor has given.
  pub new-Holds : (s : Sha2.Sha2 o) → Sha2.new o 256 ≡ returns s → Holds o hash s []
  new-Holds s made =
      let same : fresh o ≡ s = returns-injective (sym (new_lem o) ∙ made) in
      rw (← same) hash.init_lem

  verify_main_sound :
      (message : List ℕ) (offset size : ℕ) (sig : Signature o) (key : PubKey o)
      → 0 < length message
      → verify_main o message offset size sig key ≡ returns true
      → Accepts o doc [] message offset size sig key
  unfolding verify_main
  verify_main_sound message offset size sig key pos h =
      let (sha2, made, h1) = call-true (Sha2.new o 256) _ h in
      let (_, _, h2) = or_throw-true o.bn_new _ _ h1 in
      let (_, _, h3) = or_throw-true o.ec_point_new _ _ h2 in
      let (ctx, _, h4) = or_throw-true o.bn_ctx_new _ _ h3 in
      check_sound o doc [] sha2 (some ctx) message offset size sig key (new-Holds sha2 made) pos h4

  multi_sig_verify_main_sound :
      (message : List ℕ) (offset size : ℕ) (sig : Signature o) (key : PubKey o)
      → 0 < length message
      → multi_sig_verify_main o message offset size sig key ≡ returns true
      → Accepts o doc (0x11 ∷ []) message offset size sig key
  unfolding multi_sig_verify_main
  multi_sig_verify_main_sound message offset size sig key pos h =
      let (sha2, made, h1) = call-true (Sha2.new o 256) _ h in
      let (_, _, h2) = or_throw-true o.bn_new _ _ h1 in
      let (_, _, h3) = or_throw-true o.ec_point_new _ _ h2 in
      let (_, _, h4) = or_throw-true o.bn_ctx_new _ _ h3 in
      check_sound o doc (0x11 ∷ []) (Sha2.update o sha2 (0x11 ∷ [])) none message offset size sig
        key (update-Holds o hash sha2 [] (0x11 ∷ []) (new-Holds sha2 made)) pos h4

  -- Where `Schnorr::Verify` returns `true`, the message is not empty, the slice lies inside it, r and s
  -- are in [1, …, order - 1], Q = sG + r * kpub and the key are finite, and r is the hash of
  -- Q, the key and the slice, modulo the order. No call of OpenSSL is supposed to succeed.
  pub verify_slice_sound :
      (message : List ℕ) (offset size : ℕ) (sig : Signature o) (key : PubKey o)
      → verify_slice o message offset size sig key ≡ returns true
      → Accepts o doc [] message offset size sig key
  unfolding verify_slice
  verify_slice_sound message offset size sig key h =
      let (empty, h1) = return_if-true (length message == 0) _ h in
      let (_, h2) = return_if-true (ltb (length message) (add32 offset size)) _ h1 in
      let main =
        sym (finish-call (catch_return (verify_main o message offset size sig key) false)) ∙ h2 in
      verify_main_sound message offset size sig key (ground arith) (catch_return-true _ main)

  -- Where `MultiSigVerify` returns `true`, all of that holds, but r is the hash of the byte 0x11, Q,
  -- the key and the slice, modulo the order. No call of OpenSSL is supposed to succeed.
  pub multi_sig_verify_slice_sound :
      (message : List ℕ) (offset size : ℕ) (sig : Signature o) (key : PubKey o)
      → multi_sig_verify_slice o message offset size sig key ≡ returns true
      → Accepts o doc (third_domain_separated_hash_function_byte ∷ []) message offset size sig key
  unfolding multi_sig_verify_slice
  multi_sig_verify_slice_sound message offset size sig key h =
      let (empty, h1) = return_if-true (length message == 0) _ h in
      let (_, h2) = return_if-true (ltb (length message) (add32 offset size)) _ h1 in
      let main =
        sym (finish-call (catch_return (multi_sig_verify_main o message offset size sig key) false))
        ∙ h2 in
      multi_sig_verify_main_sound message offset size sig key (ground arith)
        (catch_return-true _ main)
