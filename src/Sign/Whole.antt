-- ===== src/Sign/Whole.antt =====
-- `MultiSig::SignKey` and `MultiSig::VerifyKey` of src/libSchnorr/src/MultiSig.cpp, which sign and verify a whole message.
use schnorr.Common.{ℕ, ◌%◌, ◌^◌, ◌≡◌, ◌∙◌, List, ◌++◌, length, true, false, arith}
use schnorr.Run.{returns}
use schnorr.OpenSsl.{OpenSsl}
use schnorr.OpenSsl.Laws.{Documented, NeverFails, times}
use schnorr.Keys.{PrivKey, PubKey, Signature}
use schnorr.Sign.{sign, sign_key}
use schnorr.Sign.Sound.{sign_slice-Accepts, sign_slice-verify_slice}
use schnorr.Verify.{verify, verify_key}
use schnorr.Verify.Whole.{verify-append}

module _ (o : OpenSsl) (doc : Documented o) (runs : NeverFails o doc.group doc.numbers) where
  open doc use {group, numbers, curve}

  -- A signature with which `SignKey` returns true, for a pair in which the public key is the multiple of the
  -- generator by the private key, which is not negative, is accepted by `VerifyKey`, for the message that was
  -- signed and for this message with any multiple of 2^32 bytes behind it, where no call of OpenSSL fails.
  pub sign_key-verify_key :
      (message extra : List ℕ) (privkey : PrivKey o) (pubkey : PubKey o) (fuel : ℕ)
      (result : Signature o) (w : o.World) (sig : Signature o) (w' : o.World)
      → o.bn_is_negative privkey.d ≡ false
      → curve.element pubkey.p ≡ times group (numbers.value privkey.d) group.generator
      → length extra % 2 ^ 32 ≡ 0
      → sign_key o message (privkey, pubkey) fuel result w ≡ returns (true, sig, w')
      → (verify_key o message sig pubkey ≡ returns true)
        × (verify_key o (message ++ extra) sig pubkey ≡ returns true)
  unfolding sign sign_key verify verify_key
  sign_key-verify_key message extra privkey pubkey fuel result w sig w' nonneg pair round h =
      let n = length message % 2 ^ 32 in
      let accepts =
        sign_slice-Accepts o doc message 0 n privkey pubkey nonneg pair fuel result w sig w' h in
      let signed =
        sign_slice-verify_slice o doc message 0 n privkey pubkey nonneg pair runs fuel result w sig
          w' (omega arith) h in
      let (_, _, same) = verify-append o message extra sig pubkey accepts.message_pos round in
      (signed, same ∙ signed)
