-- ===== src/Sign/Values.antt =====
-- `Schnorr::Sign` of src/libSchnorr/src/Schnorr.cpp: the two numbers that a nonce gives.
use schnorr.Common.{
  ℕ, ◌+◌, ◌-◌, ◌*◌, ◌%◌, ◌^◌, ◌≤◌, ◌<◌, ◌≡◌, ◌≢◌, sym, ap, ◌∙◌, List, [], false, some, slice,
  length,
}
use schnorr.Common.Bytes.{be}
use schnorr.Run.{returns-injective, next}
use schnorr.OpenSsl.{OpenSsl}
use schnorr.OpenSsl.Laws.{Documented, NeverFails, times}
use schnorr.Keys.{PrivKey, PubKey, Signature}
use schnorr.Sha2
use schnorr.Sha2.{Sha2}
use schnorr.Sha2.Absorb.{Holds, absorbed, update_range_inside}
use schnorr.Verify.Accepts.{transcript}
use schnorr.Verify.Steps.{finite-tested, finite-octets, challenge_number}
use schnorr.Sign.{attempt}

module _ (o : OpenSsl) (doc : Documented o) (message : List ℕ) (offset size : ℕ) where
  open doc use {group, numbers, curve, hash}

  -- What a nonce gives: the hash of k * G, the key and the slice, and k - r * d, modulo the order.
  abbrev pub challenge_value : PubKey o → o.Bignum → ℕ
  challenge_value pubkey k =
      be (
        hash.digest (
          transcript o doc [] (times group (numbers.value k) group.generator)
            (curve.element pubkey.p) (slice message offset size)))
      % numbers.order

  abbrev pub response_value : PrivKey o → PubKey o → o.Bignum → ℕ
  response_value privkey pubkey k =
      (numbers.value k
        + (numbers.order
            - challenge_value pubkey k * numbers.value privkey.d % numbers.order % numbers.order))
      % numbers.order

module _ (o : OpenSsl) (doc : Documented o) (runs : NeverFails o doc.group doc.numbers) where
  open doc use {group, numbers, curve, hash}

  module _ (message : List ℕ) (offset size : ℕ) (privkey : PrivKey o) (pubkey : PubKey o)
      (d_nonneg : o.bn_is_negative privkey.d ≡ false)
      (key_finite : curve.element pubkey.p ≢ group.identity) (pos : 0 < length message)
      (inside : offset + size ≤ length message) (small : offset + size < 2 ^ 32) where
    pub attempt-returns :
        (ctx : o.BnCtx) (k : o.Bignum) (sha2 : Sha2 o) (result : Signature o) (w : o.World)
        → o.bn_is_negative k ≡ false
        → times group (numbers.value k) group.generator ≢ group.identity
        → Holds o hash sha2 []
        → (sig : Signature o) × (left : Sha2 o) × (numbers.value sig.r
            ≡ challenge_value o doc message offset size pubkey k)
          × (numbers.value sig.s ≡ response_value o doc message offset size privkey pubkey k)
          × Holds o hash left []
          × (attempt o message offset size privkey pubkey ctx k sha2 result w ≡ next (sig, left))
    unfolding attempt Sha2.reset
    attempt-returns ctx k sha2 result w k_nonneg k_finite holds =
        let (q, mul) = runs.mul_generator k in
        let element = curve.mul_generator k q k_nonneg mul in
        let keyed =
          Sha2.update o (Sha2.update o sha2 (o.ec_point_point2oct q 33))
            (o.ec_point_point2oct pubkey.p 33) in
        let hashed = absorbed o keyed (slice message offset size) in
        let (a, read) = runs.bin2bn (Sha2.finalize o hashed).0 in
        let (r, reduced) = runs.nnmod a (some ctx) in
        let (product, multiplied) = runs.mod_mul r privkey.d in
        let (s, subtracted) = runs.mod_sub k product in
        let (r_value, r_nonneg) =
          challenge_number o doc sha2 [] q pubkey.p (slice message offset size) a r (some ctx)
            (finite-tested o doc runs q (λ e. k_finite (sym element ∙ e)))
            (finite-tested o doc runs pubkey.p key_finite) holds read reduced in
        let (product_value, product_nonneg) =
          numbers.mod_mul_lem r privkey.d product r_nonneg d_nonneg multiplied in
        let (s_value, s_nonneg) =
          numbers.mod_sub_lem k product s k_nonneg product_nonneg subtracted in
        let r_eq : numbers.value r ≡ challenge_value o doc message offset size pubkey k =
          r_value
          ∙ ap
              (λ e.
                be (
                  hash.digest
                    (transcript o doc [] e (curve.element pubkey.p) (slice message offset size)))
                % numbers.order)
              element in
        let sig : Signature o = record { r = r; s = s } in
        (
          sig,
          Sha2.reset o (Sha2.finalize o hashed).1,
          r_eq,
          s_value
              ∙ ap (λ y. (numbers.value k + (numbers.order - y % numbers.order)) % numbers.order)
                  (product_value ∙ ap (λ y. y * numbers.value privkey.d % numbers.order) r_eq),
          hash.init_lem,
          rw (
            mul,
            finite-octets o doc runs q (λ e. k_finite (sym element ∙ e)),
            finite-octets o doc runs pubkey.p key_finite,
            update_range_inside o keyed message offset size inside small,
            read,
            returns-injective reduced,
            multiplied,
            subtracted,
          ),
        )
