-- ===== src/Sign/Safe.antt =====
-- `Schnorr::Sign` of src/libSchnorr/src/Schnorr.cpp reads nothing outside the message, whatever OpenSSL returns.
use schnorr.Common.{
  ◌≢◌, subst, ℕ, zero, suc, ◌+◌, ◌<◌, ◌^◌, List, true, false, none, ◌||◌, not, length, ltb, ◌==◌,
  add32, Bool-cases, inl, inr, ltb→lt, ltb→le,
}
use schnorr.Run.{stop, next, Outcome, bad_alloc, call, return_if}
use schnorr.Run.Spares.{
  option-IsSafe, bool-IsSafe, Spares, IsSafe, bind-IsSafe, or_return-IsSafe, or_throw-IsSafe,
  call-IsSafe, return_if-IsSafe, finish-Spares,
}
use schnorr.OpenSsl.{OpenSsl}
use schnorr.OpenSsl.Laws.{Sha512Laws}
use schnorr.Keys.{PrivKey, PubKey, Signature}
use schnorr.Nonce.{generate_dsa_nonce}
use schnorr.Nonce.Bounds.{generate_dsa_nonce_ends}
use schnorr.Sha2
use schnorr.Sha2.{Sha2}
use schnorr.Sha2.Absorb.{new_lem, update_range_inside}
use schnorr.Verify.{octets_or_return}
use schnorr.Verify.Total.{update_range-throws}
use schnorr.Sign.{Signed, draw_nonce, attempt, sign_loop, sign_slice}

module _ (o : OpenSsl) (sha : Sha512Laws o)
    (order_small : o.bn_num_bytes o.curve_order + 8 < 2 ^ 32) where
  nonce-Spares :
      (privkey : PrivKey o) (message : List ℕ) (ctx : o.BnCtx) (w : o.World)
      → Spares (generate_dsa_nonce o o.curve_order privkey.d message ctx w)
  nonce-Spares privkey message ctx w =
      let (x, e) =
        generate_dsa_nonce_ends o sha o.curve_order privkey.d message ctx w order_small in
      rw e tt

  octets-IsSafe : {R : Type 0} (p : o.Point) (r : R) → IsSafe (octets_or_return o p r)
  octets-IsSafe p r =
      let octets = o.ec_point_point2oct p 33 in
      bind-IsSafe (return_if (not (length octets == 33)) r) _
        (return_if-IsSafe (not (length octets == 33)) r) (λ _. tt)

  draw_nonce-IsSafe :
      (ctx : o.BnCtx) (fuel : ℕ) (privkey : PrivKey o) (message : List ℕ) (result : Signature o)
      (w : o.World)
      → IsSafe (draw_nonce o ctx fuel privkey message result w)
  unfolding draw_nonce
  draw_nonce-IsSafe ctx zero privkey message result w = tt
  draw_nonce-IsSafe ctx (suc fuel) privkey message result w =
      let nonce = generate_dsa_nonce o o.curve_order privkey.d message ctx w in
      bind-IsSafe (call nonce) _ (call-IsSafe (Signed o) nonce (nonce-Spares privkey message ctx w))
        (λ x.
          option-IsSafe x.0 (stop (Outcome.returns (false, result, x.1)))
            (λ k. elim (o.bn_is_zero k) [
              | true ↦ draw_nonce o ctx fuel privkey message result x.1
              | false ↦ next (k, x.1)
            ])
            tt
            (λ k.
              bool-IsSafe (o.bn_is_zero k) (draw_nonce o ctx fuel privkey message result x.1)
                (next (k, x.1)) (draw_nonce-IsSafe ctx fuel privkey message result x.1) tt))

  module _ (message : List ℕ) (offset size : ℕ) (privkey : PrivKey o) (pubkey : PubKey o)
      (small : offset + size < 2 ^ 32) where
    update_range-Spares : (s : Sha2 o) → Spares (Sha2.update_range o s message offset size)
    update_range-Spares s = elim (Bool-cases (ltb (length message) (offset + size))) [
      | inl e ↦ rw (update_range-throws o s message offset size (ltb→lt _ _ e) small) tt
      | inr e ↦ rw (update_range_inside o s message offset size (ltb→le _ _ e) small) tt
    ]

    attempt-IsSafe :
        (ctx : o.BnCtx) (k : o.Bignum) (sha2 : Sha2 o) (result : Signature o) (w : o.World)
        → IsSafe (attempt o message offset size privkey pubkey ctx k sha2 result w)
    unfolding attempt
    attempt-IsSafe ctx k sha2 result w =
        let R = Signed o in
        bind-IsSafe _ _ (or_return-IsSafe (o.ec_point_mul k none) (false, result, w)) (λ q.
          bind-IsSafe _ _ (octets-IsSafe q (false, result, w)) (λ commitment.
            bind-IsSafe _ _ (octets-IsSafe pubkey.p (false, result, w)) (λ key.
              let keyed = Sha2.update o (Sha2.update o sha2 commitment) key in
              bind-IsSafe _ _
                (call-IsSafe R (Sha2.update_range o keyed message offset size)
                  (update_range-Spares keyed))
                (λ hashed.
                  bind-IsSafe _ _
                    (or_return-IsSafe (o.bn_bin2bn (Sha2.finalize o hashed).0) (false, result, w))
                    (λ n.
                      bind-IsSafe _ _ (or_return-IsSafe (o.bn_nnmod n o.curve_order ctx) _) (λ r.
                        bind-IsSafe _ _
                          (or_return-IsSafe (o.bn_mod_mul r privkey.d o.curve_order) _)
                          (λ product.
                            bind-IsSafe _ _
                              (or_return-IsSafe (o.bn_mod_sub k product o.curve_order) _)
                              (λ s. tt))))))))

    sign_loop-IsSafe :
        (ctx : o.BnCtx) (fuel : ℕ) (sha2 : Sha2 o) (result : Signature o) (w : o.World)
        → IsSafe (sign_loop o message offset size privkey pubkey ctx fuel sha2 result w)
    unfolding sign_loop
    sign_loop-IsSafe ctx zero sha2 result w = tt
    sign_loop-IsSafe ctx (suc fuel) sha2 result w =
        bind-IsSafe _ _ (draw_nonce-IsSafe ctx (suc fuel) privkey message result w) (λ drawn.
          bind-IsSafe _ _ (attempt-IsSafe ctx drawn.0 sha2 result drawn.1) (λ made.
            bool-IsSafe (o.bn_is_zero made.0.r || o.bn_is_zero made.0.s)
              (sign_loop o message offset size privkey pubkey ctx fuel made.1 made.0 drawn.1)
              (next (true, made.0, drawn.1)) (sign_loop-IsSafe ctx fuel made.1 made.0 drawn.1) tt))

    -- `Schnorr::Sign` reads nothing outside the message and follows no null pointer, for every message and
    -- pair of keys and whatever calls of OpenSSL fail, where the end of the slice fits an
    -- `unsigned int`, and for a library whose SHA-512 digests have 64 bytes and whose order has
    -- bytes that, and eight more, are counted by an `unsigned int`.
    pub sign_slice-faults_not :
        (fuel : ℕ) (result : Signature o) (w : o.World)
        → sign_slice o message offset size privkey pubkey fuel result w ≢ Outcome.faults
    unfolding sign_slice
    sign_slice-faults_not fuel result w e =
        let R = Signed o in
        let spared : Spares (sign_slice o message offset size privkey pubkey fuel result w) =
          finish-Spares _ (
            bind-IsSafe _ _ (return_if-IsSafe (length message == 0) (false, result, w)) (λ _.
              bind-IsSafe _ _
                (return_if-IsSafe (ltb (length message) (add32 offset size)) (false, result, w))
                (λ _. bind-IsSafe _ _ (call-IsSafe R (Sha2.new o 256) (rw (new_lem o) tt)) (λ sha2.
                  bind-IsSafe _ _ (or_throw-IsSafe R o.bn_new bad_alloc) (λ k.
                    bind-IsSafe _ _ (or_throw-IsSafe R o.ec_point_new bad_alloc) (λ q.
                      bind-IsSafe _ _ (or_throw-IsSafe R o.bn_ctx_new bad_alloc)
                        (λ ctx. sign_loop-IsSafe ctx fuel sha2 result w))))))) in
        subst Spares e spared
