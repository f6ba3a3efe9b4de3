-- ===== src/Sign/Sound.antt =====
-- `Schnorr::Sign` of src/libSchnorr/src/Schnorr.cpp, where it returns `true`.
use schnorr.Common.{
  ◌∙◌, ℕ, zero, suc, ◌+◌, ◌^◌, ◌<◌, ◌≡◌, ap, List, [], true, false, length, ltb, ◌==◌, add32, arith,
  inl, inr, Bool-cases, Option-cases,
}
use schnorr.Run.{
  returns, finish, bad_alloc, Run, ◌>>=◌, return_if-returns, call-returns, or_throw-returns,
  returns-injective,
}
use schnorr.OpenSsl.{OpenSsl}
use schnorr.OpenSsl.Laws.{Documented, NeverFails, times}
use schnorr.Keys.{PrivKey, PubKey, Signature}
use schnorr.Sha2
use schnorr.Sha2.{Sha2}
use schnorr.Sha2.Absorb.{Holds}
use schnorr.Verify.{verify_slice}
use schnorr.Verify.Accepts.{Accepts}
use schnorr.Verify.Sound.{new-Holds}
use schnorr.Verify.Complete.{verify_slice_complete}
use schnorr.Sign.{Signed, draw_nonce, sign_loop, sign_slice}
use schnorr.Nonce.{generate_dsa_nonce}
use schnorr.Nonce.Bounds.{generate_dsa_nonce-IsNonce}
use schnorr.Sign.Steps.{call-then}
use schnorr.Sign.Attempt.{refused, attempt-then}

module _ (o : OpenSsl) (doc : Documented o) where
  open doc use {group, numbers, curve, hash}

  -- The nonce that the loop ends with is not zero and not negative.
  pub draw_nonce-then :
      (ctx : o.BnCtx) (fuel : ℕ) (privkey : PrivKey o) (message : List ℕ) (result : Signature o)
      (w : o.World) (g : o.Bignum × o.World → Run (Signed o) (Signed o)) (t : Signature o)
      (v : o.World)
      → finish (draw_nonce o ctx fuel privkey message result w >>= g) ≡ returns (true, t, v)
      → (k : o.Bignum) × (w' : o.World) × (o.bn_is_zero k ≡ false)
        × (o.bn_is_negative k ≡ false)
        × (finish (g (k, w')) ≡ returns (true, t, v))
  unfolding draw_nonce
  draw_nonce-then ctx zero privkey message result w g t v h = cc
  draw_nonce-then ctx (suc fuel) privkey message result w g t v h =
      let (x, drawn, h1) =
        call-then (generate_dsa_nonce o o.curve_order privkey.d message ctx w) _ g (true, t, v) h in
      elim (Option-cases x.0) [
        | inl e ↦ absurd (refused o doc result t x.1 v (returns-injective (rw e at h1)))
        | inr (k, e) ↦
            let h2 = rw e at h1 in
            let nonce =
              generate_dsa_nonce-IsNonce o doc privkey.d message ctx w k x.1
                (drawn ∙ ap (λ y. returns (y, x.1)) e) in
            elim (Bool-cases (o.bn_is_zero k)) [
              | inl z ↦ draw_nonce-then ctx fuel privkey message result x.1 g t v (rw z at h2)
              | inr z ↦ (k, x.1, z, nonce.0, rw z at h2)
            ]
      ]

  module _ (message : List ℕ) (offset size : ℕ) (privkey : PrivKey o) (pubkey : PubKey o)
      (d_nonneg : o.bn_is_negative privkey.d ≡ false)
      (pair : curve.element pubkey.p ≡ times group (numbers.value privkey.d) group.generator) where
    positive : (x : o.Bignum) → o.bn_is_zero x ≡ false → 0 < numbers.value x
    positive x h = ground (arith, numbers.is_zero_lem x)

    pub sign_loop-Accepts :
        (ctx : o.BnCtx) (fuel : ℕ) (sha2 : Sha2 o) (result : Signature o) (w : o.World)
        (sig : Signature o) (w' : o.World)
        → 0 < length message
        → Holds o hash sha2 []
        → finish (sign_loop o message offset size privkey pubkey ctx fuel sha2 result w)
          ≡ returns (true, sig, w')
        → Accepts o doc [] message offset size sig pubkey
    unfolding sign_loop
    sign_loop-Accepts ctx zero sha2 result w sig w' pos holds h = cc
    sign_loop-Accepts ctx (suc fuel) sha2 result w sig w' pos holds h =
        let (k, w1, _, k_nonneg, h1) =
          draw_nonce-then ctx (suc fuel) privkey message result w _ sig w' h in
        let (made, sha2', accepts, fresh, h2) =
          attempt-then o doc message offset size privkey pubkey d_nonneg pair pos ctx k sha2 result
            w1 _ sig w' k_nonneg holds h1 in
        elim (Bool-cases (o.bn_is_zero made.r)) [
          | inl r_zero ↦ sign_loop-Accepts ctx fuel sha2' made w1 sig w' pos fresh (rw r_zero at h2)
          | inr r_ne ↦ elim (Bool-cases (o.bn_is_zero made.s)) [
            | inl s_zero ↦
                sign_loop-Accepts ctx fuel sha2' made w1 sig w' pos fresh (rw (r_ne, s_zero) at h2)
            | inr s_ne ↦
                let same : made ≡ sig =
                  ap (λ (x : Signed o). x.1) (returns-injective (rw (r_ne, s_ne) at h2)) in
                rw same at (accepts (positive made.r r_ne) (positive made.s s_ne))
          ]
        ]

    -- Where `Schnorr::Sign` returns `true`, with a public key that is the multiple of the generator by
    -- the private key, which is not negative, the scheme accepts the signature of the slice under
    -- that key: all that `verify_slice_sound` lists holds of it. No call of OpenSSL is supposed to succeed.
    pub sign_slice-Accepts :
        (fuel : ℕ) (result : Signature o) (w : o.World) (sig : Signature o) (w' : o.World)
        → sign_slice o message offset size privkey pubkey fuel result w ≡ returns (true, sig, w')
        → Accepts o doc [] message offset size sig pubkey
    unfolding sign_slice
    sign_slice-Accepts fuel result w sig w' h =
        let x : Signed o = (true, sig, w') in
        let ne = refused o doc result sig w w' in
        let (empty, h1) = return_if-returns (length message == 0) (false, result, w) _ x ne h in
        let (_, h2) =
          return_if-returns (ltb (length message) (add32 offset size)) (false, result, w) _ x ne
            h1 in
        let (sha2, made, h3) = call-returns (Sha2.new o 256) _ x h2 in
        let (_, _, h4) = or_throw-returns o.bn_new bad_alloc _ x h3 in
        let (_, _, h5) = or_throw-returns o.ec_point_new bad_alloc _ x h4 in
        let (ctx, _, h6) = or_throw-returns o.bn_ctx_new bad_alloc _ x h5 in
        sign_loop-Accepts ctx fuel sha2 result w sig w' (ground arith) (new-Holds o doc sha2 made)
          h6

    -- A signature with which `Schnorr::Sign` returns `true`, with a public key that is the multiple of the
    -- generator by the private key, which is not negative, is accepted by `Schnorr::Verify`, where no call
    -- of OpenSSL fails and the end of the slice fits an `unsigned int`.
    pub sign_slice-verify_slice :
        (runs : NeverFails o group numbers) (fuel : ℕ) (result : Signature o) (w : o.World)
        (sig : Signature o) (w' : o.World)
        → offset + size < 2 ^ 32
        → sign_slice o message offset size privkey pubkey fuel result w ≡ returns (true, sig, w')
        → verify_slice o message offset size sig pubkey ≡ returns true
    sign_slice-verify_slice runs fuel result w sig w' small h =
        verify_slice_complete o doc runs message offset size sig pubkey small
          (sign_slice-Accepts fuel result w sig w' h)
