-- ===== src/Keys/RoundTrip.antt =====
-- `Serialize` and `Deserialize` of src/libSchnorr/src/Schnorr_Signature.cpp.
use schnorr.Common.{
  ℕ, ◌+◌, ◌^◌, ◌≤◌, ◌<◌, ◌≡◌, refl, ◌∙◌, List, true, false, some, add32, length, arith,
}
use schnorr.Run.{returns, or_return-step}
use schnorr.OpenSsl.{OpenSsl}
use schnorr.OpenSsl.Laws.{Documented, NeverFails}
use schnorr.BignumSerialize.{get_number, set_number}
use schnorr.BignumSerialize.RoundTrip.{
  get_number-set_number, set_number-put_padded, put_padded-long, resized-long, no_wrap,
}
use schnorr.BignumSerialize.Frame.{get_number-set_number_behind}
use schnorr.Keys.{Signature, signature_serialize, signature_deserialize, signature_eq, is_eq}

module _ (o : OpenSsl) (doc : Documented o) (runs : NeverFails o doc.group doc.numbers) where
  open doc use {numbers}

  set_number-long :
      (dst : List ℕ) (offset size : ℕ) (v : o.Bignum)
      → offset + size < 2 ^ 32
      → size < 2 ^ 31
      → o.bn_num_bytes v ≤ size
      → offset + size ≤ length (set_number o dst offset size v)
  set_number-long dst offset size v small short fits =
      rw (set_number-put_padded o doc runs dst offset size v small short fits) (
        put_padded-long o doc runs _ offset size v (resized-long o doc runs dst (offset + size))
          fits)

  pub equal_lem :
      (a b : o.Bignum)
      → o.bn_is_negative a ≡ false
      → o.bn_is_negative b ≡ false
      → numbers.value a ≡ numbers.value b
      → is_eq (o.bn_cmp a b) ≡ true
  equal_lem a b a_nonneg b_nonneg e =
      let cmp = numbers.cmp_lem a b a_nonneg b_nonneg in ground (arith, cmp, e)

  pub copy_of_read :
      (a v : o.Bignum)
      → o.bn_is_negative v ≡ false
      → numbers.value a ≡ numbers.value v
      → o.bn_is_negative a ≡ false
      → (b : o.Bignum) × (o.bn_copy a ≡ some b) × (is_eq (o.bn_cmp b v) ≡ true)
  copy_of_read a v v_nonneg value a_nonneg =
      let (b, copied) = runs.bn_copy a in
      let (b_value, b_sign) = numbers.copy_lem a b copied in
      (b, copied, equal_lem b v (b_sign ∙ a_nonneg) v_nonneg (b_value ∙ value))

  -- The two numbers, in the vector that `Serialize` leaves.
  both_read :
      (sig : Signature o) (dst : List ℕ) (offset : ℕ)
      → offset + 64 < 2 ^ 32
      → o.bn_num_bytes sig.r ≤ 32
      → o.bn_num_bytes sig.s ≤ 32
      → ((a : o.Bignum) × (get_number o (signature_serialize o sig dst offset).0 offset 32 ≡ some a)
          × (numbers.value a ≡ numbers.value sig.r)
          × (o.bn_is_negative a ≡ false))
        × ((b : o.Bignum) × (get_number o
                (signature_serialize o sig dst offset).0
                (add32 offset 32)
                32
              ≡ some b)
            × (numbers.value b ≡ numbers.value sig.s)
            × (o.bn_is_negative b ≡ false))
  unfolding signature_serialize
  both_read sig dst offset small r_fits s_fits =
      let first = set_number o dst offset 32 sig.r in
      let (a, a_read, a_value, a_nonneg) =
        get_number-set_number o doc runs dst offset 32 sig.r (omega arith) (omega arith) r_fits in
      let (b, b_read, b_value, b_nonneg) =
        get_number-set_number o doc runs first (offset + 32) 32 sig.s (omega arith) (omega arith)
          s_fits in
      let long = set_number-long dst offset 32 sig.r (omega arith) (omega arith) r_fits in
      let next_at = no_wrap o doc runs offset 32 (omega arith) in
      let behind =
        get_number-set_number_behind o doc runs first offset 32 (offset + 32) 32 sig.s (omega arith)
          long (omega arith) (omega arith) s_fits in
      (
        (a, rw next_at (behind ∙ a_read), a_value, a_nonneg),
        (b, rw next_at b_read, b_value, b_nonneg),
      )

  -- What `Signature::Serialize` writes, `Signature::Deserialize` reads from the same offset with the result
  -- `true`, and `operator==` finds the signature read equal, where r and s are not negative and
  -- below 256^32, the end of the two fits an `unsigned int` and no call of OpenSSL fails.
  pub signature_deserialize-signature_serialize :
      (sig self : Signature o) (dst : List ℕ) (offset : ℕ)
      → offset + 64 < 2 ^ 32
      → o.bn_is_negative sig.r ≡ false
      → o.bn_is_negative sig.s ≡ false
      → numbers.value sig.r < 256 ^ 32
      → numbers.value sig.s < 256 ^ 32
      → (read : Signature o) × (signature_deserialize o self
            (signature_serialize o sig dst offset).0
            offset
          ≡ returns (read, true))
        × (signature_eq o read sig ≡ true)
  unfolding signature_deserialize signature_eq
  signature_deserialize-signature_serialize sig self dst offset small r_nonneg s_nonneg r_lt s_lt =
      let src = (signature_serialize o sig dst offset).0 in
      let ((a, a_read, a_value, a_nonneg), (b, b_read, b_value, b_nonneg)) =
        both_read sig dst offset small (numbers.num_bytes-le sig.r 32 r_lt)
          (numbers.num_bytes-le sig.s 32 s_lt) in
      let (r, r_copied, r_equal) = copy_of_read a sig.r r_nonneg a_value a_nonneg in
      let (s, s_copied, s_equal) = copy_of_read b sig.s s_nonneg b_value b_nonneg in
      (
        record { r = r; s = s },
        or_return-step (get_number o src offset 32) _ _ a_read (
            or_return-step (get_number o src (add32 offset 32) 32) _ _ b_read (
              or_return-step (o.bn_copy a) _ _ r_copied
                (or_return-step (o.bn_copy b) _ _ s_copied refl))),
        rw (r_equal, s_equal),
      )
