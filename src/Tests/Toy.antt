-- ===== src/Tests/Toy.antt =====
-- A library over the numbers and a group of three elements, with what is documented of it.
use schnorr.Common.{
  ◌^◌, ◌≤◌, ℕ, ◌+◌, ◌-◌, ◌*◌, ◌%◌, ◌<◌, ◌≡◌, ◌≢◌, refl, sym, ap, List, [], ◌∷◌, ◌++◌, Bool, true,
  false, Option, none, some, compare, ◌==◌, length, All, replicate, arith, if◌then◌else◌, ◌↔◌,
}
use schnorr.Common.Bytes.{be}
use schnorr.Run.{returns, returns-injective}
use schnorr.OpenSsl.{nnmod, cmp_error, nnmod, OpenSsl, PointOrder, same, different}
use schnorr.OpenSsl.Laws.{
  Sha512Laws, BnLaws, CurveGroup, EcLaws, ShaLaws, NeverFails, Documented, times,
}
use schnorr.Tests.Octets.{bytes-octets, octets, be-octets, length-octets-le, lt-octets}
use mathlib.Core.Option.{some-injective}

pub data Tri : Type 0 where
  neutral one two : Tri

abbrev pub tri_add : Tri → Tri → Tri
tri_add neutral q = q
tri_add one neutral = one
tri_add one one = two
tri_add one two = neutral
tri_add two neutral = two
tri_add two one = neutral
tri_add two two = one

abbrev pub tri_encode : Tri → List ℕ
tri_encode neutral = 0 ∷ []
tri_encode one = 2 ∷ (replicate 31 0 ++ (1 ∷ []))
tri_encode two = 3 ∷ (replicate 31 0 ++ (1 ∷ []))

pub tri_add_comm : (p q : Tri) → tri_add p q ≡ tri_add q p
tri_add_comm p q = ground arith

pub tri_add_assoc : (p q r : Tri) → tri_add (tri_add p q) r ≡ tri_add p (tri_add q r)
tri_add_assoc p q r = ground arith

pub tri_encode_finite : (p : Tri) → p ≢ neutral → length (tri_encode p) ≡ 33
tri_encode_finite neutral h = absurd (h refl)
tri_encode_finite one h = refl
tri_encode_finite two h = refl

pub tri_encode_bytes : (p : Tri) → All (λ b. b < 256) (tri_encode p)
tri_encode_bytes neutral = omega arith
tri_encode_bytes one = omega arith
tri_encode_bytes two = omega arith

pub tri_encode_injective : (p q : Tri) → be (tri_encode p) ≡ be (tri_encode q) → p ≡ q
unfolding be
tri_encode_injective neutral neutral h = refl
tri_encode_injective neutral one h = absurd (omega arith)
tri_encode_injective neutral two h = absurd (omega arith)
tri_encode_injective one neutral h = absurd (omega arith)
tri_encode_injective one one h = refl
tri_encode_injective one two h = absurd (omega arith)
tri_encode_injective two neutral h = absurd (omega arith)
tri_encode_injective two one h = absurd (omega arith)
tri_encode_injective two two h = refl

pub tri_encode_sign :
    (p : Tri) → p ≢ neutral → (b : ℕ) × (bs : List ℕ) × (tri_encode p ≡ b ∷ bs) × (2 ≤ b) × (b ≤ 3)
tri_encode_sign neutral h = absurd (h refl)
tri_encode_sign one h = (2, _, refl, omega arith, omega arith)
tri_encode_sign two h = (3, _, refl, omega arith, omega arith)

abbrev pub tri_group : CurveGroup
tri_group = record {
  Elt = Tri;
  identity = neutral;
  add = tri_add;
  generator = one;
  add_comm = tri_add_comm;
  add_assoc = tri_add_assoc;
  identity_add = λ p. refl;
  encode = tri_encode;
  encode_finite = tri_encode_finite;
  encode_identity = refl;
  encode_bytes = tri_encode_bytes;
  encode_injective = tri_encode_injective;
  encode_sign = tri_encode_sign;
}

abbrev pub tri_cmp : Tri → Tri → PointOrder
tri_cmp neutral neutral = same
tri_cmp one one = same
tri_cmp two two = same
tri_cmp _ _ = different

abbrev pub tri_is_neutral : Tri → Bool
tri_is_neutral neutral = true
tri_is_neutral one = false
tri_is_neutral two = false

abbrev pub total : List ℕ → ℕ
total [] = 0
total (x ∷ xs) = x + total xs

-- Random numbers come from a list, and are 1 behind its end.
abbrev pub pop : ℕ → List ℕ → Option ℕ × List ℕ
pop range [] = (some (1 % range), [])
pop range (x ∷ xs) = (some (x % range), xs)

abbrev pub toy_random : ℕ → List ℕ → Option (List ℕ) × List ℕ
toy_random n [] = (some (1 ∷ replicate (n - 1) 0), [])
toy_random n (x ∷ xs) = (some ((x % 256) ∷ replicate (n - 1) 0), xs)

pub toy_random-some : (n : ℕ) (w : List ℕ) → (bs : List ℕ) × ((toy_random n w).0 ≡ some bs)
toy_random-some n [] = (_, refl)
toy_random-some n (x ∷ xs) = (_, refl)

abbrev pub tri_mul : ℕ → Option (Tri × ℕ) → Option Tri
tri_mul k none = some (times tri_group k one)
tri_mul k (some (q, m)) = some (tri_add (times tri_group k one) (times tri_group m q))

abbrev pub tri_of_number : ℕ → Option Tri
unfolding be
tri_of_number b =
    if b == be (tri_encode one)
    then some one
    else if b == be (tri_encode two)
    then some two
    else none

abbrev pub toy : OpenSsl
toy = record {
  Bignum = ℕ;
  Point = Tri;
  ShaCtx = List ℕ;
  BnCtx = Unit {0};
  World = List ℕ;
  curve_order = 3;
  bn_new = some 0;
  bn_ctx_new = some tt;
  bn_is_zero = λ a. a == 0;
  bn_is_negative = λ a. false;
  bn_cmp = compare;
  bn_num_bytes = λ a. length (octets a);
  bn_bin2bn = λ bs. some (be bs);
  bn_bn2bin = octets;
  bn_copy = λ a. some a;
  bn_nnmod = λ a m c. some (a % m);
  bn_nnmod_null = λ a m. returns (some (a % m));
  bn_mod_add = λ a b m. some ((a + b) % m);
  bn_mod_mul = λ a b m. some ((a * b) % m);
  bn_mod_sub = λ a b m. some ((a + (m - b % m)) % m);
  bn_rand_range = pop;
  bn_mod = λ a m c. some (a % m);
  bn_words = octets;
  ec_point_new = some neutral;
  ec_point_copy = λ p. some p;
  ec_point_add = λ p q. some (tri_add p q);
  ec_point_mul = tri_mul;
  ec_point_cmp = tri_cmp;
  ec_point_is_at_infinity = tri_is_neutral;
  ec_point_point2oct = λ p n. if n == 33 then tri_encode p else [];
  ec_point_point2bn = λ p. some (be (tri_encode p));
  ec_point_bn2point = tri_of_number;
  ec_point_get_affine_coordinates = λ p. none;
  bn_bn2hex = λ a. none;
  EcGroup = Unit {0};
  ec_group_new = some tt;
  ec_group_get_order = λ g. some 3;
  sha256_init = [];
  sha256_update = λ c bs. c ++ bs;
  sha256_final = λ c. (replicate 31 0 ++ ((total c % 256) ∷ []), c);
  Sha512Ctx = List ℕ;
  sha512_init = [];
  sha512_update = λ c bs. c ++ bs;
  sha512_final = λ c. (total c % 256) ∷ replicate 63 0;
  openssl_malloc = λ n. true;
  rand_bytes = toy_random;
  unsigned_bytes = λ n. (n % 256) ∷ replicate 3 0;
}

pub tri_order : times tri_group 3 one ≡ neutral
tri_order = refl

pub toy_numbers_order : 1 < 3
toy_numbers_order = omega arith

pub toy_order-le : 3 ≤ 256 ^ 32
toy_order-le = omega arith

pub toy_length-words : (a : ℕ) → length (octets a) ≤ length (octets a) + 7
toy_length-words a = omega arith

pub toy_nnmod_lem :
    (a c : ℕ) (ctx : Option (Unit {0}))
    → false ≡ false
    → nnmod toy a toy.curve_order ctx ≡ returns (some c)
    → (c ≡ a % 3) × (false ≡ false)
toy_nnmod_lem a c (some ctx) p h = (some-injective _ _ (sym (returns-injective h)), refl)
toy_nnmod_lem a c none p h = (some-injective _ _ (sym (returns-injective h)), refl)

pub toy_nnmod-some :
    (a : ℕ) (ctx : Option (Unit {0}))
    → (b : ℕ) × (nnmod toy a toy.curve_order ctx ≡ returns (some b))
toy_nnmod-some a (some ctx) = (a % 3, refl)
toy_nnmod-some a none = (a % 3, refl)

abbrev pub toy_numbers : BnLaws toy
toy_numbers = record {
  value = λ a. a;
  order = 3;
  one_lt_order = toy_numbers_order;
  order-le = toy_order-le;
  mod_lem = λ a c ctx p h. (some-injective _ _ (sym h), refl);
  length-words = λ a. toy_length-words a;
  curve_order_nonneg = refl;
  value-curve_order = refl;
  is_zero_lem = λ a. refl;
  cmp_lem = λ a b p q. refl;
  lt-num_bytes = lt-octets;
  num_bytes-le = length-octets-le;
  length-bn2bin = λ a. refl;
  bytes-bn2bin = bytes-octets;
  be-bn2bin = be-octets;
  bin2bn_lem = λ bs a h. (some-injective _ _ (sym h), refl);
  copy_lem = λ a b h. (some-injective _ _ (sym h), refl);
  nnmod_lem = toy_nnmod_lem;
  mod_add_lem = λ a b c p q h. (some-injective _ _ (sym h), refl);
  mod_mul_lem = λ a b c p q h. (some-injective _ _ (sym h), refl);
  mod_sub_lem = λ a b c p q h. (some-injective _ _ (sym h), refl);
}

pub tri_same_lem : (p q : Tri) → tri_cmp p q ≡ same → p ≡ q
tri_same_lem p q h = ground arith

pub tri_different_lem : (p q : Tri) → tri_cmp p q ≡ different → p ≢ q
tri_different_lem p q h = ground arith

pub tri_cmp-decides : (p q : Tri) → tri_cmp p q ≢ cmp_error
tri_cmp-decides p q = ground arith

pub tri_encode-finite : (p : Tri) → tri_is_neutral p ≡ false → length (tri_encode p) ≡ 33
tri_encode-finite p h = ground arith

pub tri_is_neutral_lem : (p : Tri) → (tri_is_neutral p ≡ true) ↔ (p ≡ neutral)
tri_is_neutral_lem p = ground arith

pub tri_of_number_lem : (b : ℕ) (p : Tri) → tri_of_number b ≡ some p → b ≡ be (tri_encode p)
unfolding tri_of_number
tri_of_number_lem b p h = ground arith

abbrev pub toy_curve : EcLaws toy tri_group toy_numbers
toy_curve = record {
  element = λ p. p;
  order_times = tri_order;
  copy_lem = λ p q h. some-injective _ _ (sym h);
  add_lem = λ p q r h. some-injective _ _ (sym h);
  mul_generator = λ k r p h. some-injective _ _ (sym h);
  mul_both = λ k m q r p n h. some-injective _ _ (sym h);
  same_lem = tri_same_lem;
  different_lem = tri_different_lem;
  at_infinity_lem = tri_is_neutral_lem;
  point2oct_lem = λ p h. refl;
  point2bn_lem = λ p b h. (some-injective _ _ (sym h), refl);
  bn2point_lem = tri_of_number_lem;
}

abbrev pub toy_hash : ShaLaws toy
toy_hash = record {
  Absorbs = λ c xs. c ≡ xs;
  digest = λ xs. replicate 31 0 ++ ((total xs % 256) ∷ []);
  init_lem = refl;
  update_lem = λ c xs bs h. ap (λ x. x ++ bs) h;
  final_lem = λ c xs h. ap (λ x. replicate 31 0 ++ ((total x % 256) ∷ [])) h;
}

abbrev pub toy_nonce_hash : Sha512Laws toy
toy_nonce_hash = record { length-final = λ c. refl }

abbrev pub toy_doc : Documented toy
toy_doc = record {
  group = tri_group;
  numbers = toy_numbers;
  curve = toy_curve;
  hash = toy_hash;
  nonce_hash = toy_nonce_hash;
}

pub tri_of_number-total :
    (b : ℕ) (e : Tri) → e ≢ neutral → b ≡ be (tri_encode e) → (p : Tri) × (tri_of_number b ≡ some p)
unfolding tri_of_number
tri_of_number-total b neutral ne h = absurd (ne refl)
tri_of_number-total b one ne h = (one, ap tri_of_number h)
tri_of_number-total b two ne h = (two, ap tri_of_number h)

abbrev pub toy_runs : NeverFails toy tri_group toy_numbers
toy_runs = record {
  bn_new = (0, refl);
  bn_ctx_new = (tt, refl);
  bin2bn = λ bs. (be bs, refl);
  bn_copy = λ a. (a, refl);
  nnmod = toy_nnmod-some;
  modulo = λ a c. (a % 3, refl);
  malloc = λ n. refl;
  random = toy_random-some;
  mod_add = λ a b. ((a + b) % 3, refl);
  mod_mul = λ a b. ((a * b) % 3, refl);
  point_cmp = tri_cmp-decides;
  point2oct = tri_encode-finite;
  mod_sub = λ a b. ((a + (3 - b % 3)) % 3, refl);
  point_new = (neutral, refl);
  point_copy = λ p. (p, refl);
  point_add = λ p q. (tri_add p q, refl);
  mul_generator = λ k. (times tri_group k one, refl);
  mul_both = λ k m q. (tri_add (times tri_group k one) (times tri_group m q), refl);
  point2bn = λ p. (be (tri_encode p), refl);
  bn2point = tri_of_number-total;
}
