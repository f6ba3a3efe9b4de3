-- ===== src/Sign/KeyPair.antt =====
-- Schnorr_PrivKey.cpp, `PrivKey()`, and Schnorr.cpp, `Schnorr::GenKeyPair`.
use schnorr.Common.{
  ℕ, zero, suc, ◌<◌, ◌≡◌, refl, sym, ap, ◌∙◌, true, false, some, arith, Bool-cases, inl, inr,
}
use schnorr.Run.{returns, bad_alloc, or_throw-step, call-step}
use schnorr.OpenSsl.{OpenSsl}
use schnorr.OpenSsl.Laws.{Documented, NeverFails, times}
use schnorr.Keys.{
  PrivKey, PubKey, draw_key, priv_key_generate, priv_key_copy, pub_key_of, pub_key_copy,
}
use schnorr.Verify.Accepts.{InRange}
use schnorr.MultiSig.Signer.{pub_key_of-element, pub_key_of-returns}
use schnorr.MultiSig.Sums.{pub_key_copy-element}
use schnorr.MultiSig.Runs.{pub_key_copy-returns}
use schnorr.Sign.{gen_key_pair}

module _ (o : OpenSsl) (doc : Documented o) (runs : NeverFails o doc.group doc.numbers) where
  open doc use {group, numbers, curve}

  -- The random numbers below the order: draws that do not fail.
  pub record Draws : Type 0 where
    pub number : o.World → o.Bignum
    pub after : o.World → o.World
    pub drawn : (w : o.World) → o.bn_rand_range o.curve_order w ≡ (some (number w), after w)
    pub nonneg : (w : o.World) → o.bn_is_negative (number w) ≡ false
    pub lt : (w : o.World) → numbers.value (number w) < numbers.order

  module _ (draws : Draws) where
    open draws use {number, after, drawn, nonneg, lt}

    -- The generator's state after a number of draws.
    abbrev pub world_after : ℕ → o.World → o.World
    world_after zero w = w
    world_after (suc n) w = world_after n (after w)

    draw_key-stops :
        (fuel : ℕ) (d : o.Bignum) (w : o.World)
        → o.bn_is_zero (number w) ≡ false
        → draw_key o (suc fuel) d w ≡ returns (number w, after w)
    unfolding draw_key
    draw_key-stops fuel d w nonzero =
        rw (ap (λ x. x.0) (drawn w), nonzero, draw_key)
          (ap (λ x. returns (number w, x.1)) (drawn w))

    draw_key-goes_on :
        (fuel : ℕ) (d : o.Bignum) (w : o.World)
        → o.bn_is_zero (number w) ≡ true
        → draw_key o (suc fuel) d w ≡ draw_key o fuel (number w) (after w)
    unfolding draw_key
    draw_key-goes_on fuel d w zero_drawn =
        rw (ap (λ x. x.0) (drawn w), zero_drawn, draw_key)
          (ap (λ x. draw_key o fuel (number w) x.1) (drawn w))

    number-InRange : (w : o.World) → o.bn_is_zero (number w) ≡ false → InRange o doc (number w)
    number-InRange w e = record {
      nonneg = nonneg w;
      pos = ground (arith, numbers.is_zero_lem (number w), e);
      lt = lt w;
    }

    draw_key-returns :
        (n fuel : ℕ) (d : o.Bignum) (w : o.World)
        → n < fuel
        → o.bn_is_zero (number (world_after n w)) ≡ false
        → (d' : o.Bignum) × (w' : o.World) × (draw_key o fuel d w ≡ returns (d', w'))
          × InRange o doc d'
    draw_key-returns n zero d w h nonzero = absurd (omega arith)
    draw_key-returns zero (suc fuel) d w h nonzero =
        (number w, after w, draw_key-stops fuel d w nonzero, number-InRange w nonzero)
    draw_key-returns (suc n) (suc fuel) d w h nonzero =
        elim (Bool-cases (o.bn_is_zero (number w))) [
          | inr e ↦ (number w, after w, draw_key-stops fuel d w e, number-InRange w e)
          | inl e ↦
              let (d', w', done, range) =
                draw_key-returns n fuel (number w) (after w) (omega arith) nonzero in
              (d', w', draw_key-goes_on fuel d w e ∙ done, range)
        ]

    priv_key_copy-returns :
        (d : PrivKey o)
        → InRange o doc d.d
        → (copy : PrivKey o) × (priv_key_copy o d ≡ returns copy)
          × InRange o doc copy.d
          × (numbers.value copy.d ≡ numbers.value d.d)
    unfolding priv_key_copy
    priv_key_copy-returns d range =
        let (b, new) = runs.bn_new in
        let (e, copied) = runs.bn_copy d.d in
        let (value, sign) = numbers.copy_lem d.d e copied in
        (
          record { d = e },
          or_throw-step o.bn_new bad_alloc _ new (rw copied),
          record { nonneg = sign ∙ range.nonneg; pos = rw value range.pos; lt = rw value range.lt },
          value,
        )

    generated_lem :
        (n fuel : ℕ) (w : o.World)
        → n < fuel
        → o.bn_is_zero (number (world_after n w)) ≡ false
        → (d : PrivKey o) × (w' : o.World) × (priv_key_generate o fuel w ≡ returns (d, w'))
          × InRange o doc d.d
    unfolding priv_key_generate
    generated_lem n fuel w h nonzero =
        let (b, new) = runs.bn_new in
        let (d, w', done, range) = draw_key-returns n fuel b w h nonzero in
        (
          record { d = d },
          w',
          or_throw-step o.bn_new bad_alloc _ new (call-step (draw_key o fuel b w) _ done refl),
          range,
        )

    -- Where one of the first `fuel` numbers that are drawn below the order is not zero, and no call of
    -- OpenSSL fails, `GenKeyPair` ends within that fuel, with a private key in
    -- [1, …, order - 1] and the public key that is the multiple of the generator by it.
    pub gen_key_pair-returns :
        (n fuel : ℕ) (w : o.World)
        → n < fuel
        → o.bn_is_zero (number (world_after n w)) ≡ false
        → (priv : PrivKey o) × (key : PubKey o) × (w' : o.World) × (gen_key_pair o fuel w
            ≡ returns (priv, key, w'))
          × InRange o doc priv.d
          × (curve.element key.p ≡ times group (numbers.value priv.d) group.generator)
    unfolding gen_key_pair
    gen_key_pair-returns n fuel w h nonzero =
        let (d, w', generated, range) = generated_lem n fuel w h nonzero in
        let (key, key_made) = pub_key_of-returns o doc runs d range in
        let element = pub_key_of-element o doc runs d key range key_made in
        let (d1, d1_made, d1_range, d1_value) = priv_key_copy-returns d range in
        let (k1, k1_made) = pub_key_copy-returns o doc runs key in
        let (d2, d2_made, d2_range, d2_value) = priv_key_copy-returns d1 d1_range in
        let (k2, k2_made) = pub_key_copy-returns o doc runs k1 in
        (
          d2,
          k2,
          w',
          call-step (priv_key_generate o fuel w) _ generated (
              call-step (pub_key_of o d) _ key_made (
                call-step (priv_key_copy o d) _ d1_made (
                  call-step (pub_key_copy o key) _ k1_made (
                    call-step (priv_key_copy o d1) _ d2_made
                      (call-step (pub_key_copy o k1) _ k2_made refl))))),
          d2_range,
          pub_key_copy-element o doc runs k1 k2 k2_made
              ∙ pub_key_copy-element o doc runs key k1 k1_made
              ∙ element
              ∙ ap (λ x. times group x group.generator) (sym (d2_value ∙ d1_value)),
        )
