-- ===== src/Sign/Runs.antt =====
-- `Schnorr::Sign` of src/libSchnorr/src/Schnorr.cpp, on a nonce that serves.
use schnorr.Common.{
  arith, true, suc, ℕ, ◌+◌, ◌^◌, ◌≤◌, ◌<◌, ◌≡◌, ◌≢◌, sym, ap, ◌∙◌, List, [], false, some, length,
}
use schnorr.Run.{returns, next}
use schnorr.OpenSsl.{OpenSsl}
use schnorr.OpenSsl.Laws.{Documented, NeverFails, times}
use schnorr.Keys.{PrivKey, PubKey, Signature}
use schnorr.Sha2
use schnorr.Sha2.{Sha2}
use schnorr.Sha2.Absorb.{Holds}
use schnorr.Nonce.{generate_dsa_nonce}
use schnorr.Nonce.Bounds.{generate_dsa_nonce-IsNonce}
use schnorr.Common.{zero, ◌⊎◌, inl, inr, refl}
use schnorr.Common.{◌||◌, arith, ltb, ◌==◌, add32, le→ltb, ne→==, true}
use mathlib.Core.Path.{ap₂}
use schnorr.Run.{
  Outcome, call-step, or_throw-step, return_if-step, bad_alloc, next-step, finish, returns,
}
use schnorr.Sha2.Absorb.{new_lem, fresh}
use schnorr.Sign.Values.{challenge_value, response_value, attempt-returns}
use schnorr.Sign.{sign_loop, sign_slice, Signed, draw_nonce, attempt}

module _ (o : OpenSsl) (doc : Documented o) (runs : NeverFails o doc.group doc.numbers) where
  open doc use {group, numbers, curve, hash}

  module _ (message : List ℕ) (offset size : ℕ) (privkey : PrivKey o) (pubkey : PubKey o)
      (d_nonneg : o.bn_is_negative privkey.d ≡ false)
      (key_finite : curve.element pubkey.p ≢ group.identity) (pos : 0 < length message)
      (inside : offset + size ≤ length message) (small : offset + size < 2 ^ 32) where
    -- The draw of a nonce, with the state that it leaves.
    abbrev pub DrawsTo : o.World → o.Bignum → o.World → Type 0
    DrawsTo w k w' =
        generate_dsa_nonce o o.curve_order privkey.d message runs.bn_ctx_new.0 w
        ≡ returns (some k, w')

    -- A nonce whose signature has no zero, and one whose signature has.
    pub record Serves (k : o.Bignum) : Type 0 where
      pub nonzero : o.bn_is_zero k ≡ false
      pub finite : times group (numbers.value k) group.generator ≢ group.identity
      pub r_ne : challenge_value o doc message offset size pubkey k ≢ 0
      pub s_ne : response_value o doc message offset size privkey pubkey k ≢ 0

    pub record Fails (k : o.Bignum) : Type 0 where
      pub nonzero : o.bn_is_zero k ≡ false
      pub finite : times group (numbers.value k) group.generator ≢ group.identity
      pub some_zero :
          (challenge_value o doc message offset size pubkey k ≡ 0)
          ⊎ (response_value o doc message offset size privkey pubkey k ≡ 0)

    -- After so many draws that do not serve, a draw gives the nonce `k`, which does.
    pub data Served : ℕ → o.World → o.Bignum → o.World → Type 0 where
      serves : {w w' : o.World} {k : o.Bignum} → DrawsTo w k w' → Serves k → Served 0 w k w'
      redraw :
          {n : ℕ} {w v w' : o.World} {z k : o.Bignum}
          → DrawsTo w z v
          → o.bn_is_zero z ≡ true
          → Served n v k w'
          → Served (suc n) w k w'
      retry :
          {n : ℕ} {w v w' : o.World} {x k : o.Bignum}
          → DrawsTo w x v
          → Fails x
          → Served n v k w'
          → Served (suc n) w k w'

    draw_nonce-stops :
        (fuel : ℕ) (result : Signature o) (w : o.World) (k : o.Bignum) (w' : o.World)
        → DrawsTo w k w'
        → o.bn_is_zero k ≡ false
        → draw_nonce o runs.bn_ctx_new.0 (suc fuel) privkey message result w ≡ next (k, w')
    unfolding draw_nonce
    draw_nonce-stops fuel result w k w' drawn nonzero = rw (draw_nonce, drawn, nonzero)

    draw_nonce-goes_on :
        (fuel : ℕ) (result : Signature o) (w : o.World) (z : o.Bignum) (v : o.World)
        → DrawsTo w z v
        → o.bn_is_zero z ≡ true
        → draw_nonce o runs.bn_ctx_new.0 (suc fuel) privkey message result w
          ≡ draw_nonce o runs.bn_ctx_new.0 fuel privkey message result v
    unfolding draw_nonce
    draw_nonce-goes_on fuel result w z v drawn zero_drawn = rw (draw_nonce, drawn, zero_drawn)

    -- What the inner loop ends with.
    Round : ℕ → o.World → o.Bignum → o.World → o.Bignum → o.World → Type 0
    Round n w k w' x v =
        ((x ≡ k) × (v ≡ w') × Serves k) ⊎ ((m : ℕ) × (m < n) × Fails x × Served m v k w')

    nonneg :
        (w : o.World) (k : o.Bignum) (w' : o.World) → DrawsTo w k w' → o.bn_is_negative k ≡ false
    nonneg w k w' drawn =
        (generate_dsa_nonce-IsNonce o doc privkey.d message runs.bn_ctx_new.0 w k w' drawn).0

    later :
        (n : ℕ) (k : o.Bignum) (w' w v : o.World) (x : o.Bignum) (u : o.World)
        → Round n v k w' x u
        → Round (suc n) w k w' x u
    unfolding Round
    later n k w' w v x u (inl t) = inl t
    later n k w' w v x u (inr (m, lt, f, t)) = inr (m, omega arith, f, t)

    draw_nonce-Round :
        (fuel n : ℕ) (w w' : o.World) (k : o.Bignum) (result : Signature o)
        → Served n w k w'
        → n < fuel
        → (x : o.Bignum) × (v : o.World) × (draw_nonce o runs.bn_ctx_new.0 fuel privkey message
              result w
            ≡ next (x, v))
          × Round n w k w' x v
          × (o.bn_is_negative x ≡ false)
    unfolding Round
    draw_nonce-Round zero n w w' k result t h = absurd (omega arith)
    draw_nonce-Round (suc fuel) n w w' k result (serves drawn t) h = (
      k,
      w',
      draw_nonce-stops fuel result w k w' drawn t.nonzero,
      inl (refl, refl, t),
      nonneg w k w' drawn,
    )
    draw_nonce-Round (suc fuel) _ w w' k result (redraw {n = n} {v = v} {z = z} drawn is_zero t) h =
        let (x, u, done, round, x_nonneg) = draw_nonce-Round fuel n v w' k result t (omega arith) in
        (
          x,
          u,
          draw_nonce-goes_on fuel result w z v drawn is_zero ∙ done,
          later n k w' w v x u round,
          x_nonneg,
        )
    draw_nonce-Round (suc fuel) _ w w' k result (retry {n = n} {v = v} {x = x} drawn f t) h = (
      x,
      v,
      draw_nonce-stops fuel result w x v drawn f.nonzero,
      inr (n, omega arith, f, t),
      nonneg w x v drawn,
    )

    nonzero-value : (x : o.Bignum) (n : ℕ) → numbers.value x ≡ n → n ≢ 0 → o.bn_is_zero x ≡ false
    nonzero-value x n e ne = numbers.is_zero_lem x ∙ ne→== (numbers.value x) 0 (λ z. ne (sym e ∙ z))

    zero-value : (x : o.Bignum) (n : ℕ) → numbers.value x ≡ n → n ≡ 0 → o.bn_is_zero x ≡ true
    zero-value x n e z = ground (arith, numbers.is_zero_lem x, e, z)

    some_zero_lem :
        (x : o.Bignum) (sig : Signature o)
        → numbers.value sig.r ≡ challenge_value o doc message offset size pubkey x
        → numbers.value sig.s ≡ response_value o doc message offset size privkey pubkey x
        → (challenge_value o doc message offset size pubkey x ≡ 0)
          ⊎ (response_value o doc message offset size privkey pubkey x ≡ 0)
        → (o.bn_is_zero sig.r || o.bn_is_zero sig.s) ≡ true
    some_zero_lem x sig r_eq s_eq (inl z) = rw (zero-value sig.r _ r_eq z)
    some_zero_lem x sig r_eq s_eq (inr z) = ground (arith, zero-value sig.s _ s_eq z)

    -- A round of the outer loop that ends it, and one that does not.
    module _ (fuel : ℕ) (sha2 left : Sha2 o) (result sig : Signature o) (w w' : o.World)
        (k : o.Bignum)
        (drawn : draw_nonce o runs.bn_ctx_new.0 (suc fuel) privkey message result w ≡ next (k, w'))
        (made : attempt o message offset size privkey pubkey runs.bn_ctx_new.0 k sha2 result w'
          ≡ next (sig, left)) where
      sign_loop-stops :
          o.bn_is_zero sig.r ≡ false
          → o.bn_is_zero sig.s ≡ false
          → finish (
              sign_loop o message offset size privkey pubkey runs.bn_ctx_new.0
                (suc fuel)
                sha2
                result
                w)
            ≡ returns (true, sig, w')
      unfolding sign_loop
      sign_loop-stops r_test s_test = next-step _ _ drawn (next-step _ _ made (rw (r_test, s_test)))

      sign_loop-goes_on :
          (out : Outcome (Signed o))
          → (o.bn_is_zero sig.r || o.bn_is_zero sig.s) ≡ true
          → finish
              (sign_loop o message offset size privkey pubkey runs.bn_ctx_new.0 fuel left sig w')
            ≡ out
          → finish (
              sign_loop o message offset size privkey pubkey runs.bn_ctx_new.0
                (suc fuel)
                sha2
                result
                w)
            ≡ out
      unfolding sign_loop
      sign_loop-goes_on out test rest = next-step _ _ drawn (next-step _ _ made (rw test rest))

    -- What `Sign` leaves once a nonce serves.
    Done : o.Bignum → (Signature o → Type 0) → Type 0
    Done k P =
        (sig : Signature o) × (numbers.value sig.r
          ≡ challenge_value o doc message offset size pubkey k)
        × (numbers.value sig.s ≡ response_value o doc message offset size privkey pubkey k)
        × P sig

    sign_loop-Done :
        (fuel n : ℕ) (w : o.World) (k : o.Bignum) (w' : o.World) (sha2 : Sha2 o)
        (result : Signature o)
        → Holds o hash sha2 []
        → Served n w k w'
        → n < fuel
        → Done k (λ sig.
          finish
            (sign_loop o message offset size privkey pubkey runs.bn_ctx_new.0 fuel sha2 result w)
          ≡ returns (true, sig, w'))
    unfolding Done Round
    sign_loop-Done zero n w k w' sha2 result holds t h = absurd (omega arith)
    sign_loop-Done (suc fuel) n w k w' sha2 result holds t h =
        let (x, v, drawn, round, x_nonneg) = draw_nonce-Round (suc fuel) n w w' k result t h in
        elim round [
          | inl (x_k, v_w, good) ↦
              let drawn' : draw_nonce o runs.bn_ctx_new.0 (suc fuel) privkey message result w
                  ≡ next (k, w') =
                drawn ∙ ap₂ (λ a b. next (a, b)) x_k v_w in
              let nonneg' : o.bn_is_negative k ≡ false = ap o.bn_is_negative (sym x_k) ∙ x_nonneg in
              let (sig, left, r_eq, s_eq, _, made) =
                attempt-returns o doc runs message offset size privkey pubkey d_nonneg key_finite
                  pos inside small runs.bn_ctx_new.0 k sha2 result w' nonneg' good.finite holds in
              (
                sig,
                r_eq,
                s_eq,
                sign_loop-stops fuel sha2 left result sig w w' k drawn' made
                    (nonzero-value sig.r _ r_eq good.r_ne) (nonzero-value sig.s _ s_eq good.s_ne),
              )
          | inr (m, lt, bad, t') ↦
              let (sig, left, r_eq, s_eq, left_holds, made) =
                attempt-returns o doc runs message offset size privkey pubkey d_nonneg key_finite
                  pos inside small runs.bn_ctx_new.0 x sha2 result v x_nonneg bad.finite holds in
              let (final, r, s, rest) =
                sign_loop-Done fuel m v k w' left sig left_holds t' (omega arith) in
              (
                final,
                r,
                s,
                sign_loop-goes_on fuel sha2 left result sig w v x drawn made _
                    (some_zero_lem x sig r_eq s_eq bad.some_zero) rest,
              )
        ]

    -- Where no call of OpenSSL fails, the private key is not negative, the public key is finite, the
    -- message is not empty and the slice lies inside it, with an end that fits an `unsigned int`, and where
    -- the draws of nonces come, after n of them that are zero or whose signatures have a zero, to a nonce k
    -- for which k * G is finite and neither number of the signature is zero, `Schnorr::Sign` ends within n + 1
    -- rounds and returns `true`, with a signature that holds the hash of k * G, the key and the slice, and
    -- k - r * d, both modulo the order.
    pub sign_slice-returns :
        (n fuel : ℕ) (result : Signature o) (w : o.World) (k : o.Bignum) (w' : o.World)
        → Served n w k w'
        → n < fuel
        → (sig : Signature o) × (numbers.value sig.r
            ≡ challenge_value o doc message offset size pubkey k)
          × (numbers.value sig.s ≡ response_value o doc message offset size privkey pubkey k)
          × (sign_slice o message offset size privkey pubkey fuel result w
              ≡ returns (true, sig, w'))
    unfolding sign_slice Done
    sign_slice-returns n fuel result w k w' t h =
        let (sig, r_eq, s_eq, done) =
          sign_loop-Done fuel n w k w' (fresh o) result hash.init_lem t h in
        (
          sig,
          r_eq,
          s_eq,
          return_if-step (length message == 0) _ _ (ne→== _ 0 (omega arith)) (
              return_if-step (ltb (length message) (add32 offset size)) _ _
                (le→ltb _ _ (omega arith))
                (call-step (Sha2.new o 256) _ (new_lem o) (
                  or_throw-step o.bn_new bad_alloc _ runs.bn_new.1 (
                    or_throw-step o.ec_point_new bad_alloc _ runs.point_new.1
                      (or_throw-step o.bn_ctx_new bad_alloc _ runs.bn_ctx_new.1 done))))),
        )
