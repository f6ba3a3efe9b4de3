-- ===== src/OpenSsl/Laws.antt =====
-- What OpenSSL documents of the operations that the code calls, as hypotheses.
use schnorr.Common.{
  ℕ, zero, suc, ◌+◌, ◌-◌, ◌*◌, ◌%◌, ◌^◌, ◌≤◌, ◌<◌, ◌≡◌, ◌≢◌, ◌↔◌, true, false, Option, none, some,
  List, [], ◌∷◌, ◌++◌, compare, length, All, ◌==◌,
}
use schnorr.Common.Bytes.{be}
use schnorr.OpenSsl.{OpenSsl, same, different, cmp_error, nnmod}
use schnorr.Run.{returns}

-- The values of the operations on numbers, where they do not fail.
pub record BnLaws (o : OpenSsl) : Type 0 where
  -- the absolute value of a number
  pub value : o.Bignum → ℕ
  pub order : ℕ
  pub one_lt_order : 1 < order
  pub order-le : order ≤ 256 ^ 32
  pub curve_order_nonneg : o.bn_is_negative o.curve_order ≡ false
  pub value-curve_order : value o.curve_order ≡ order
  pub is_zero_lem : (a : o.Bignum) → o.bn_is_zero a ≡ (value a == 0)
  pub cmp_lem :
      (a b : o.Bignum)
      → o.bn_is_negative a ≡ false
      → o.bn_is_negative b ≡ false
      → o.bn_cmp a b ≡ compare (value a) (value b)
  pub lt-num_bytes : (a : o.Bignum) → value a < 256 ^ o.bn_num_bytes a
  pub num_bytes-le : (a : o.Bignum) (n : ℕ) → value a < 256 ^ n → o.bn_num_bytes a ≤ n
  pub length-bn2bin : (a : o.Bignum) → length (o.bn_bn2bin a) ≡ o.bn_num_bytes a
  pub bytes-bn2bin : (a : o.Bignum) → All (λ b. b < 256) (o.bn_bn2bin a)
  pub be-bn2bin : (a : o.Bignum) → be (o.bn_bn2bin a) ≡ value a
  pub bin2bn_lem :
      (bs : List ℕ) (a : o.Bignum)
      → o.bn_bin2bn bs ≡ some a
      → (value a ≡ be bs) × (o.bn_is_negative a ≡ false)
  pub copy_lem :
      (a b : o.Bignum)
      → o.bn_copy a ≡ some b
      → (value b ≡ value a) × (o.bn_is_negative b ≡ o.bn_is_negative a)
  -- of numbers that are not negative, modulo the order
  pub nnmod_lem :
      (a c : o.Bignum) (ctx : Option o.BnCtx)
      → o.bn_is_negative a ≡ false
      → nnmod o a o.curve_order ctx ≡ returns (some c)
      → (value c ≡ value a % order) × (o.bn_is_negative c ≡ false)
  pub mod_lem :
      (a c : o.Bignum) (ctx : o.BnCtx)
      → o.bn_is_negative a ≡ false
      → o.bn_mod a o.curve_order ctx ≡ some c
      → (value c ≡ value a % order) × (o.bn_is_negative c ≡ false)
  -- words of eight bytes, of which the last is not zero
  pub length-words : (a : o.Bignum) → length (o.bn_words a) ≤ o.bn_num_bytes a + 7
  pub mod_add_lem :
      (a b c : o.Bignum)
      → o.bn_is_negative a ≡ false
      → o.bn_is_negative b ≡ false
      → o.bn_mod_add a b o.curve_order ≡ some c
      → (value c ≡ (value a + value b) % order) × (o.bn_is_negative c ≡ false)
  pub mod_mul_lem :
      (a b c : o.Bignum)
      → o.bn_is_negative a ≡ false
      → o.bn_is_negative b ≡ false
      → o.bn_mod_mul a b o.curve_order ≡ some c
      → (value c ≡ value a * value b % order) × (o.bn_is_negative c ≡ false)
  pub mod_sub_lem :
      (a b c : o.Bignum)
      → o.bn_is_negative a ≡ false
      → o.bn_is_negative b ≡ false
      → o.bn_mod_sub a b o.curve_order ≡ some c
      → (value c ≡ (value a + (order - value b % order)) % order) × (o.bn_is_negative c ≡ false)

-- The curve as a commutative group, in which every multiple of the generator has a period.
pub record CurveGroup : Type 1 where
  pub Elt : Type 0
  pub identity : Elt
  pub add : Elt → Elt → Elt
  pub generator : Elt
  pub add_comm : (p q : Elt) → add p q ≡ add q p
  pub add_assoc : (p q r : Elt) → add (add p q) r ≡ add p (add q r)
  pub identity_add : (p : Elt) → add identity p ≡ p
  -- the compressed octets of an element
  pub encode : Elt → List ℕ
  pub encode_finite : (p : Elt) → p ≢ identity → length (encode p) ≡ 33
  pub encode_identity : encode identity ≡ 0 ∷ []
  pub encode_bytes : (p : Elt) → All (λ b. b < 256) (encode p)
  -- which, read as a number, determine it
  pub encode_injective : (p q : Elt) → be (encode p) ≡ be (encode q) → p ≡ q
  -- 2 or 3, by the sign of y
  pub encode_sign :
      (p : Elt) → p ≢ identity → (b : ℕ) × (bs : List ℕ) × (encode p ≡ b ∷ bs) × (2 ≤ b) × (b ≤ 3)

-- `n * p`
abbrev pub times : (g : CurveGroup) → ℕ → g.Elt → g.Elt
times g zero p = g.identity
times g (suc n) p = g.add p (times g n p)

-- The operations on points, where they do not fail.
pub record EcLaws (o : OpenSsl) (g : CurveGroup) (bn : BnLaws o) : Type 0 where
  -- the element that a point stands for
  pub element : o.Point → g.Elt
  pub order_times : times g bn.order g.generator ≡ g.identity
  pub copy_lem : (p q : o.Point) → o.ec_point_copy p ≡ some q → element q ≡ element p
  pub add_lem :
      (p q r : o.Point) → o.ec_point_add p q ≡ some r → element r ≡ g.add (element p) (element q)
  pub mul_generator :
      (k : o.Bignum) (r : o.Point)
      → o.bn_is_negative k ≡ false
      → o.ec_point_mul k none ≡ some r
      → element r ≡ times g (bn.value k) g.generator
  pub mul_both :
      (k m : o.Bignum) (q r : o.Point)
      → o.bn_is_negative k ≡ false
      → o.bn_is_negative m ≡ false
      → o.ec_point_mul k (some (q, m)) ≡ some r
      → element r ≡ g.add (times g (bn.value k) g.generator) (times g (bn.value m) (element q))
  pub same_lem : (p q : o.Point) → o.ec_point_cmp p q ≡ same → element p ≡ element q
  pub different_lem : (p q : o.Point) → o.ec_point_cmp p q ≡ different → element p ≢ element q
  pub at_infinity_lem :
      (p : o.Point) → (o.ec_point_is_at_infinity p ≡ true) ↔ (element p ≡ g.identity)
  -- where 33 octets are written
  pub point2oct_lem :
      (p : o.Point)
      → length (o.ec_point_point2oct p 33) ≡ 33
      → o.ec_point_point2oct p 33 ≡ g.encode (element p)
  pub point2bn_lem :
      (p : o.Point) (b : o.Bignum)
      → o.ec_point_point2bn p ≡ some b
      → (bn.value b ≡ be (g.encode (element p))) × (o.bn_is_negative b ≡ false)
  pub bn2point_lem :
      (b : o.Bignum) (p : o.Point)
      → o.ec_point_bn2point b ≡ some p
      → bn.value b ≡ be (g.encode (element p))

-- A digest of what a context has absorbed.
pub record ShaLaws (o : OpenSsl) : Type 1 where
  pub Absorbs : o.ShaCtx → List ℕ → Type 0
  pub digest : List ℕ → List ℕ
  pub init_lem : Absorbs o.sha256_init []
  pub update_lem :
      (c : o.ShaCtx) (xs bs : List ℕ) → Absorbs c xs → Absorbs (o.sha256_update c bs) (xs ++ bs)
  pub final_lem : (c : o.ShaCtx) (xs : List ℕ) → Absorbs c xs → (o.sha256_final c).0 ≡ digest xs

-- A digest of SHA-512 has 64 bytes.
pub record Sha512Laws (o : OpenSsl) : Type 0 where
  pub length-final : (c : o.Sha512Ctx) → length (o.sha512_final c) ≡ 64

-- The memory that the calls want is there, and their arguments are no cause of failure. A number
-- read back as a point is one of a finite element. The documentation of `BN_nnmod` asks for a context;
-- the code of the multi-signatures passes NULL, and `nnmod` supposes a release that accepts it.
pub record NeverFails (o : OpenSsl) (g : CurveGroup) (bn : BnLaws o) : Type 0 where
  pub bn_new : (b : o.Bignum) × (o.bn_new ≡ some b)
  pub bn_ctx_new : (c : o.BnCtx) × (o.bn_ctx_new ≡ some c)
  pub bin2bn : (bs : List ℕ) → (b : o.Bignum) × (o.bn_bin2bn bs ≡ some b)
  pub bn_copy : (a : o.Bignum) → (b : o.Bignum) × (o.bn_copy a ≡ some b)
  pub nnmod :
      (a : o.Bignum) (c : Option o.BnCtx)
      → (b : o.Bignum) × (nnmod o a o.curve_order c ≡ returns (some b))
  pub modulo : (a : o.Bignum) (c : o.BnCtx) → (b : o.Bignum) × (o.bn_mod a o.curve_order c ≡ some b)
  pub malloc : (n : ℕ) → o.openssl_malloc n ≡ true
  pub random : (n : ℕ) (w : o.World) → (bs : List ℕ) × ((o.rand_bytes n w).0 ≡ some bs)
  pub mod_add : (a b : o.Bignum) → (c : o.Bignum) × (o.bn_mod_add a b o.curve_order ≡ some c)
  pub mod_mul : (a b : o.Bignum) → (c : o.Bignum) × (o.bn_mod_mul a b o.curve_order ≡ some c)
  pub mod_sub : (a b : o.Bignum) → (c : o.Bignum) × (o.bn_mod_sub a b o.curve_order ≡ some c)
  pub point_new : (p : o.Point) × (o.ec_point_new ≡ some p)
  pub point_copy : (p : o.Point) → (q : o.Point) × (o.ec_point_copy p ≡ some q)
  pub point_add : (p q : o.Point) → (r : o.Point) × (o.ec_point_add p q ≡ some r)
  pub mul_generator : (k : o.Bignum) → (r : o.Point) × (o.ec_point_mul k none ≡ some r)
  pub mul_both :
      (k m : o.Bignum) (q : o.Point) → (r : o.Point) × (o.ec_point_mul k (some (q, m)) ≡ some r)
  pub point_cmp : (p q : o.Point) → o.ec_point_cmp p q ≢ cmp_error
  -- of a finite point, into a buffer that has room for it
  pub point2oct :
      (p : o.Point) → o.ec_point_is_at_infinity p ≡ false → length (o.ec_point_point2oct p 33) ≡ 33
  pub point2bn : (p : o.Point) → (b : o.Bignum) × (o.ec_point_point2bn p ≡ some b)
  pub bn2point :
      (b : o.Bignum) (e : g.Elt)
      → e ≢ g.identity
      → bn.value b ≡ be (g.encode e)
      → (p : o.Point) × (o.ec_point_bn2point b ≡ some p)

-- All of it.
pub record Documented (o : OpenSsl) : Type 1 where
  pub group : CurveGroup
  pub numbers : BnLaws o
  pub curve : EcLaws o group numbers
  pub hash : ShaLaws o
  pub nonce_hash : Sha512Laws o
