-- ===== src/Keys/Order.antt =====
-- Schnorr_PubKey.cpp: the comparisons of public keys.
use schnorr.Common.{ℕ, ◌≡◌, ◌↔◌, refl, ap, true, not, ltb, ◌==◌, arith}
use schnorr.Common.Bytes.{be}
use schnorr.Run.{returns, bad_alloc, or_throw-step, call-step}
use schnorr.OpenSsl.{OpenSsl}
use schnorr.OpenSsl.Laws.{Documented, NeverFails}
use schnorr.Keys.{
  PubKey, pub_key_compare, pub_key_lt, pub_key_gt, pub_key_eq, pub_key_ne, is_lt, is_eq,
}

equal_numbers : (m n : ℕ) → (m == n) ≡ true → m ≡ n
equal_numbers m n h = ground arith

same_numbers : (m n : ℕ) → m ≡ n → (m == n) ≡ true
same_numbers m n h = ground arith

module _ (o : OpenSsl) (doc : Documented o) (runs : NeverFails o doc.group doc.numbers) where
  open doc use {group, numbers, curve}

  -- The compressed octets of a key as a number.
  abbrev pub key_value : PubKey o → ℕ
  key_value a = be (group.encode (curve.element a.p))

  compare_lem :
      (a b : PubKey o)
      → (x : o.Bignum) × (y : o.Bignum) × (pub_key_compare o a b ≡ returns (x, y))
        × (is_lt (o.bn_cmp x y) ≡ ltb (key_value a) (key_value b))
        × (is_eq (o.bn_cmp x y) ≡ (key_value a == key_value b))
  unfolding pub_key_compare
  compare_lem a b =
      let (x, x_eq) = runs.point2bn a.p in
      let (y, y_eq) = runs.point2bn b.p in
      let (x_value, x_nonneg) = curve.point2bn_lem a.p x x_eq in
      let (y_value, y_nonneg) = curve.point2bn_lem b.p y y_eq in
      let cmp = numbers.cmp_lem x y x_nonneg y_nonneg in
      (
        x,
        y,
        or_throw-step o.bn_ctx_new bad_alloc _ runs.bn_ctx_new.1 (
            or_throw-step (o.ec_point_point2bn a.p) bad_alloc _ x_eq
              (or_throw-step (o.ec_point_point2bn b.p) bad_alloc _ y_eq refl)),
        rw (cmp, x_value, y_value) (ground arith),
        rw (cmp, x_value, y_value) (ground arith),
      )

  -- Where no call of OpenSSL fails, the operators <, >, == and != of public keys compare the compressed
  -- octets of the two keys as numbers, and == is true exactly for keys of the same element.
  pub pub_key_order :
      (a b : PubKey o)
      → (pub_key_lt o a b ≡ returns (ltb (key_value a) (key_value b)))
        × (pub_key_gt o a b ≡ returns (ltb (key_value b) (key_value a)))
        × (pub_key_eq o a b ≡ returns (key_value a == key_value b))
        × (pub_key_ne o a b ≡ returns (not (key_value a == key_value b)))
        × (((key_value a == key_value b) ≡ true) ↔ (curve.element a.p ≡ curve.element b.p))
  unfolding pub_key_lt pub_key_gt pub_key_eq pub_key_ne
  pub_key_order a b =
      let (x, y, computed, less, equal) = compare_lem a b in
      let (x', y', computed', less', _) = compare_lem b a in
      let eq : pub_key_eq o a b ≡ returns (key_value a == key_value b) =
        call-step (pub_key_compare o a b) _ computed (ap returns equal) in
      (
        call-step (pub_key_compare o a b) _ computed (ap returns less),
        call-step (pub_key_compare o b a) _ computed' (ap returns less'),
        eq,
        call-step (pub_key_eq o a b) _ eq refl,
        (
          λ h. group.encode_injective _ _ (equal_numbers (key_value a) (key_value b) h),
          λ e. same_numbers (key_value a) (key_value b) (ap (λ p. be (group.encode p)) e),
        ),
      )
