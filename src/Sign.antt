-- ===== src/Sign.antt =====
-- src/libSchnorr/src/Schnorr.cpp: `Schnorr::GenKeyPair` and `Schnorr::Sign`, and `SignKey` of
-- src/libSchnorr/src/MultiSig.cpp. The two loops of `Sign` recur on fuel. The signature that the
-- caller passes by reference is returned beside the result, as the call leaves it, with the state
-- of the random number generator.
pub mod Steps
pub mod Attempt
pub mod Sound
pub mod Values
pub mod Runs
pub mod KeyPair
pub mod EndToEnd
pub mod Whole
pub mod Safe
use schnorr.Common.{
  ℕ, zero, suc, ◌%◌, ◌^◌, List, Bool, true, false, none, some, ◌||◌, ltb, ◌==◌, add32, length,
}
use schnorr.Run.{
  Outcome, Run, out_of_fuel, bad_alloc, next, stop, finish, call, return_if, or_return, or_throw,
  ◌>>=◌, ◌>>◌,
}
use schnorr.OpenSsl.{OpenSsl}
use schnorr.Nonce.{generate_dsa_nonce}
use schnorr.Keys.{
  PrivKey, PubKey, Signature, priv_key_generate, priv_key_copy, pub_key_of, pub_key_copy,
}
use schnorr.Verify.{octets_or_return}
use schnorr.Sha2
use schnorr.Sha2.{Sha2}

module _ (o : OpenSsl) where
  -- The pair is made from a copy of each key, and holds a copy of that.
  unfoldable pub gen_key_pair : ℕ → o.World → Outcome (PrivKey o × PubKey o × o.World)
  gen_key_pair fuel w = finish do
    (privkey, w') ← call (priv_key_generate o fuel w)
    pubkey ← call (pub_key_of o privkey)
    priv_first ← call (priv_key_copy o privkey)
    pub_first ← call (pub_key_copy o pubkey)
    priv_second ← call (priv_key_copy o priv_first)
    pub_second ← call (pub_key_copy o pub_first)
    next (priv_second, pub_second, w')

  -- The result of `Sign`, the signature, and the generator's state.
  abbrev pub Signed : Type 0
  Signed = Bool × Signature o × o.World

  -- `do { … } while (BN_is_zero(k))`
  unfoldable pub draw_nonce :
      o.BnCtx → ℕ → PrivKey o → List ℕ → Signature o → o.World → Run Signed (o.Bignum × o.World)
  draw_nonce ctx zero privkey message result w = stop out_of_fuel
  draw_nonce ctx (suc fuel) privkey message result w = do
    (drawn, w') ← call (generate_dsa_nonce o o.curve_order privkey.d message ctx w)
    elim drawn [
      | none ↦ stop (Outcome.returns (false, result, w'))
      | some k ↦ elim (o.bn_is_zero k) [
        | true ↦ draw_nonce ctx fuel privkey message result w'
        | false ↦ next (k, w')
      ]
    ]

  module _ (message : List ℕ) (offset size : ℕ) (privkey : PrivKey o) (pubkey : PubKey o) where
    -- The rest of the body of the outer loop, up to the test.
    unfoldable pub attempt :
        o.BnCtx → o.Bignum → Sha2 o → Signature o → o.World → Run Signed (Signature o × Sha2 o)
    attempt ctx k sha2 result w = do
      q ← or_return (o.ec_point_mul k none) (false, result, w)
      commitment ← octets_or_return o q (false, result, w)
      key ← octets_or_return o pubkey.p (false, result, w)
      hashed ← call (
          Sha2.update_range o (Sha2.update o (Sha2.update o sha2 commitment) key) message offset
            size)
      let (digest, left) = Sha2.finalize o hashed
      digest_number ← or_return (o.bn_bin2bn digest) (false, result, w)
      let unreduced : Signature o = record result { r = digest_number }
      r ← or_return (o.bn_nnmod digest_number o.curve_order ctx) (false, unreduced, w)
      let challenged : Signature o = record result { r = r }
      product ← or_return (o.bn_mod_mul r privkey.d o.curve_order) (false, challenged, w)
      let multiplied : Signature o = record { r = r; s = product }
      s ← or_return (o.bn_mod_sub k product o.curve_order) (false, multiplied, w)
      next (record { r = r; s = s }, Sha2.reset o left)

    -- `do { … } while (res)`
    unfoldable pub sign_loop : o.BnCtx → ℕ → Sha2 o → Signature o → o.World → Run Signed Signed
    sign_loop ctx zero sha2 result w = stop out_of_fuel
    sign_loop ctx (suc fuel) sha2 result w = do
      (k, w') ← draw_nonce ctx (suc fuel) privkey message result w
      (made, sha2') ← attempt ctx k sha2 result w'
      elim (o.bn_is_zero made.r || o.bn_is_zero made.s) [
        | true ↦ sign_loop ctx fuel sha2' made w'
        | false ↦ next (true, made, w')
      ]

    unfoldable pub sign_slice : ℕ → Signature o → o.World → Outcome Signed
    sign_slice fuel result w = finish do
      return_if (length message == 0) (false, result, w)
      return_if (ltb (length message) (add32 offset size)) (false, result, w)
      sha2 ← call (Sha2.new o Sha2.hash_variant_256)
      k ← or_throw o.bn_new bad_alloc
      q ← or_throw o.ec_point_new bad_alloc
      ctx ← or_throw o.bn_ctx_new bad_alloc
      sign_loop ctx fuel sha2 result w

  unfoldable pub sign : List ℕ → PrivKey o → PubKey o → ℕ → Signature o → o.World → Outcome Signed
  sign message privkey pubkey fuel result w =
      sign_slice message 0 (length message % 2 ^ 32) privkey pubkey fuel result w

  -- `MultiSig::SignKey`
  unfoldable pub sign_key :
      List ℕ → PrivKey o × PubKey o → ℕ → Signature o → o.World → Outcome Signed
  sign_key message_with_pub_key (priv, pub_half) fuel signature w =
      sign message_with_pub_key priv pub_half fuel signature w
