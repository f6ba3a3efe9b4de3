-- ===== src/Verify/Whole.antt =====
-- Schnorr.cpp, `Schnorr::Verify`, and MultiSig.cpp, `MultiSig::MultiSigVerify` and `VerifyKey`, of a whole message.
use schnorr.Common.{
  ℕ, ◌%◌, ◌^◌, ◌≤◌, ◌<◌, ◌≡◌, ap, ◌∙◌, List, ◌++◌, length, length-append, take, take-append_le,
  arith, Option,
}
use schnorr.OpenSsl.{OpenSsl}
use schnorr.Keys.{PubKey, Signature}
use schnorr.Sha2
use schnorr.Sha2.{Sha2}
use schnorr.Verify.{
  check, verify_main, verify_slice, verify, multi_sig_verify_main, multi_sig_verify_slice,
  multi_sig_verify, verify_key,
}

module _ (o : OpenSsl) (message other : List ℕ) (n : ℕ) (inside : n ≤ length message)
    (other_inside : n ≤ length other) (small : n < 2 ^ 32)
    (same : take n message ≡ take n other) where
  update_range_same :
      (s : Sha2 o) → Sha2.update_range o s message 0 n ≡ Sha2.update_range o s other 0 n
  unfolding Sha2.update_range
  update_range_same s = ground (arith, same, inside, other_inside, small)

  module _ (sig : Signature o) (key : PubKey o) where
    check_same :
        (s : Sha2 o) (ctx : Option o.BnCtx)
        → check o s ctx message 0 n sig key ≡ check o s ctx other 0 n sig key
    unfolding check
    check_same s ctx = simp (update_range_same)

    main_same : verify_main o message 0 n sig key ≡ verify_main o other 0 n sig key
    unfolding verify_main
    main_same = simp (check_same)

    multi_sig_main_same :
        multi_sig_verify_main o message 0 n sig key ≡ multi_sig_verify_main o other 0 n sig key
    unfolding multi_sig_verify_main
    multi_sig_main_same = simp (check_same)

module _ (o : OpenSsl) (message extra : List ℕ) (sig : Signature o) (key : PubKey o)
    (pos : 0 < length message) (round : length extra % 2 ^ 32 ≡ 0) where
  same_size : length (message ++ extra) % 2 ^ 32 ≡ length message % 2 ^ 32
  same_size = omega (arith, length-append message extra, round)

  reached : length message % 2 ^ 32 ≤ length message
  reached = omega arith

  slice_same :
      verify_slice o (message ++ extra) 0 (length message % 2 ^ 32) sig key
      ≡ verify_slice o message 0 (length message % 2 ^ 32) sig key
  unfolding verify_slice
  slice_same =
      let grown = length-append message extra in
      let n = length message % 2 ^ 32 in
      let main =
        main_same o (message ++ extra) message n (omega (arith, grown, reached)) reached
          (omega arith) (take-append_le message extra n reached) sig key in
      ground (arith, grown, pos, reached, main)

  multi_sig_slice_same :
      multi_sig_verify_slice o (message ++ extra) 0 (length message % 2 ^ 32) sig key
      ≡ multi_sig_verify_slice o message 0 (length message % 2 ^ 32) sig key
  unfolding multi_sig_verify_slice
  multi_sig_slice_same =
      let grown = length-append message extra in
      let n = length message % 2 ^ 32 in
      let main =
        multi_sig_main_same o (message ++ extra) message n (omega (arith, grown, reached)) reached
          (omega arith) (take-append_le message extra n reached) sig key in
      ground (arith, grown, pos, reached, main)

  -- The calls for a whole message pass its length as an `unsigned int`. So where a multiple of 2^32 bytes
  -- follows a message that is not empty, `Schnorr::Verify`, `MultiSigVerify` and `VerifyKey` end as they do
  -- for the message alone, whatever these bytes and whatever OpenSSL returns.
  pub verify-append :
      (verify o (message ++ extra) sig key ≡ verify o message sig key)
      × (multi_sig_verify o (message ++ extra) sig key ≡ multi_sig_verify o message sig key)
      × (verify_key o (message ++ extra) sig key ≡ verify_key o message sig key)
  unfolding verify multi_sig_verify verify_key
  verify-append =
      let whole = ap (λ n. verify_slice o (message ++ extra) 0 n sig key) same_size ∙ slice_same in
      (
        whole,
        ap (λ n. multi_sig_verify_slice o (message ++ extra) 0 n sig key) same_size
            ∙ multi_sig_slice_same,
        whole,
      )
