-- ===== src/Verify.antt =====
-- src/libSchnorr/src/Schnorr.cpp: `Schnorr::Verify`, and src/libSchnorr/src/MultiSig.cpp:
-- `MultiSig::MultiSigVerify`. Both run under a lock, which keeps no state. The flag `err` of the code is
-- false wherever the end is reached, since each test that sets it returns.
pub mod Accepts
pub mod Steps
pub mod Check
pub mod Sound
pub mod Complete
pub mod Elements
pub mod Wraps
pub mod Whole
pub mod Total
use schnorr.Common.{
  ℕ, ◌%◌, ◌^◌, List, [], ◌∷◌, Bool, false, Option, none, some, ◌||◌, not, ltb, ◌==◌, add32, length,
}
use schnorr.Run.{
  Outcome, Run, bad_alloc, next, finish, call, return_if, or_return, called_or_return, or_throw,
  catch_return, ◌>>=◌, ◌>>◌,
}
use schnorr.OpenSsl.{OpenSsl, nnmod}
use schnorr.Sizes.{pubkey_compressed_size_bytes, third_domain_separated_hash_function_byte}
use schnorr.Keys.{PubKey, Signature, is_lt, is_eq}
use schnorr.Sha2
use schnorr.Sha2.{Sha2}

module _ (o : OpenSsl) where
  -- `BN_is_zero(x) || BN_is_negative(x) || (BN_cmp(x, order) != -1)`
  unfoldable pub out_of_range : o.Bignum → Bool
  out_of_range x = o.bn_is_zero x || o.bn_is_negative x || not (is_lt (o.bn_cmp x o.curve_order))

  -- The octets that `EC_POINT_point2oct` writes, or `return r` where they are not 33.
  abbrev pub octets_or_return : {R : Type 0} → o.Point → R → Run R (List ℕ)
  octets_or_return point r = do
    let buf = o.ec_point_point2oct point pubkey_compressed_size_bytes
    return_if (not (length buf == pubkey_compressed_size_bytes)) r
    next buf

  -- What both `try` blocks do behind their allocations: the hash object `sha2` may have absorbed a
  -- prefix, and `ctx` is what `BN_nnmod` is given, NULL in `MultiSigVerify`.
  unfoldable pub check :
      Sha2 o → Option o.BnCtx → List ℕ → ℕ → ℕ → Signature o → PubKey o → Run Bool Bool
  check sha2 ctx message offset size toverify pubkey = do
    return_if (out_of_range toverify.r) false
    return_if (out_of_range toverify.s) false
    q ← or_return (o.ec_point_mul toverify.s (some (pubkey.p, toverify.r))) false
    return_if (o.ec_point_is_at_infinity q) false
    commitment ← octets_or_return q false
    key ← octets_or_return pubkey.p false
    hashed ← call (
        Sha2.update_range o (Sha2.update o (Sha2.update o sha2 commitment) key) message offset size)
    digest_number ← or_return (o.bn_bin2bn (Sha2.finalize o hashed).0) false
    challenge_built ← called_or_return (nnmod o digest_number o.curve_order ctx) false
    next (is_eq (o.bn_cmp challenge_built toverify.r))

  -- The `try` block of `Schnorr::Verify`.
  unfoldable pub verify_main : List ℕ → ℕ → ℕ → Signature o → PubKey o → Outcome Bool
  verify_main message offset size toverify pubkey = finish do
    sha2 ← call (Sha2.new o Sha2.hash_variant_256)
    challenge_new ← or_throw o.bn_new bad_alloc
    point_new ← or_throw o.ec_point_new bad_alloc
    ctx ← or_throw o.bn_ctx_new bad_alloc
    check sha2 (some ctx) message offset size toverify pubkey

  unfoldable pub verify_slice : List ℕ → ℕ → ℕ → Signature o → PubKey o → Outcome Bool
  verify_slice message offset size toverify pubkey = finish do
    return_if (length message == 0) false
    return_if (ltb (length message) (add32 offset size)) false
    call (catch_return (verify_main message offset size toverify pubkey) false)

  -- `message.size()` is passed as an `unsigned int`.
  unfoldable pub verify : List ℕ → Signature o → PubKey o → Outcome Bool
  verify message toverify pubkey = verify_slice message 0 (length message % 2 ^ 32) toverify pubkey

  -- The `try` block of `MultiSig::MultiSigVerify`.
  unfoldable pub multi_sig_verify_main : List ℕ → ℕ → ℕ → Signature o → PubKey o → Outcome Bool
  multi_sig_verify_main message offset size toverify pubkey = finish do
    sha2_new ← call (Sha2.new o Sha2.hash_variant_256)
    let sha2 = Sha2.update o sha2_new (third_domain_separated_hash_function_byte ∷ [])
    challenge_new ← or_throw o.bn_new bad_alloc
    point_new ← or_throw o.ec_point_new bad_alloc
    ctx ← or_throw o.bn_ctx_new bad_alloc
    check sha2 none message offset size toverify pubkey

  unfoldable pub multi_sig_verify_slice : List ℕ → ℕ → ℕ → Signature o → PubKey o → Outcome Bool
  multi_sig_verify_slice message offset size toverify pubkey = finish do
    return_if (length message == 0) false
    return_if (ltb (length message) (add32 offset size)) false
    call (catch_return (multi_sig_verify_main message offset size toverify pubkey) false)

  unfoldable pub multi_sig_verify : List ℕ → Signature o → PubKey o → Outcome Bool
  multi_sig_verify message toverify pubkey =
      multi_sig_verify_slice message 0 (length message % 2 ^ 32) toverify pubkey

  -- `MultiSig::VerifyKey`
  unfoldable pub verify_key : List ℕ → Signature o → PubKey o → Outcome Bool
  verify_key message_with_pub_key signature pub_key = verify message_with_pub_key signature pub_key
