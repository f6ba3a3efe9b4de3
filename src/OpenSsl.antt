-- ===== src/OpenSsl.antt =====
-- What the code calls of OpenSSL, as a record of operations: `Schnorr`, `MultiSig` and the serializers
-- take such a record, and nothing here is a definition of OpenSSL's code. A result that the C function
-- reports as 0 or NULL is `none`. Numbers and points are given and returned by value: the first
-- argument of the C function, its output, is the result here. Whether a call fails is a function of its
-- arguments: an allocation, which has none, fails each time of a run or never.
pub mod Laws
pub mod Group
use schnorr.Common.{ℕ, List, Bool, Option, some, none, Ordering}
use schnorr.Run.{Outcome, returns}

-- `EC_POINT_cmp`: 0, 1 and -1.
pub data PointOrder : Type 0 where
  same different cmp_error : PointOrder

pub record OpenSsl : Type 1 where
  pub Bignum : Type 0
  pub Point : Type 0
  -- `SHA256_CTX`
  pub ShaCtx : Type 0
  -- `BN_CTX`
  pub BnCtx : Type 0
  -- the state of the random number generator
  pub World : Type 0
  -- `Schnorr::GetCurveOrder()`, the order of secp256k1
  pub curve_order : Bignum
  pub bn_new : Option Bignum
  pub bn_ctx_new : Option BnCtx
  pub bn_is_zero : Bignum → Bool
  pub bn_is_negative : Bignum → Bool
  pub bn_cmp : Bignum → Bignum → Ordering
  pub bn_num_bytes : Bignum → ℕ
  pub bn_bin2bn : List ℕ → Option Bignum
  pub bn_bn2bin : Bignum → List ℕ
  pub bn_copy : Bignum → Option Bignum
  pub bn_nnmod : Bignum → Bignum → BnCtx → Option Bignum
  -- the same with NULL for a context, which its documentation does not allow: the call may end in any way
  pub bn_nnmod_null : Bignum → Bignum → Outcome (Option Bignum)
  pub bn_mod_add : Bignum → Bignum → Bignum → Option Bignum
  pub bn_mod_mul : Bignum → Bignum → Bignum → Option Bignum
  pub bn_mod_sub : Bignum → Bignum → Bignum → Option Bignum
  pub bn_rand_range : Bignum → World → Option Bignum × World
  pub bn_mod : Bignum → Bignum → BnCtx → Option Bignum
  -- the `top` words at `d`, byte by byte as they stand in memory
  pub bn_words : Bignum → List ℕ
  pub ec_point_new : Option Point
  pub ec_point_copy : Point → Option Point
  pub ec_point_add : Point → Point → Option Point
  -- `n * generator + m * q`; without `q` and `m`, `n * generator`
  pub ec_point_mul : Bignum → Option (Point × Bignum) → Option Point
  pub ec_point_cmp : Point → Point → PointOrder
  pub ec_point_is_at_infinity : Point → Bool
  -- the octets written, compressed, into a buffer of the given size; none written is `[]`
  pub ec_point_point2oct : Point → ℕ → List ℕ
  pub ec_point_point2bn : Point → Option Bignum
  pub ec_point_bn2point : Bignum → Option Point
  -- `EC_POINT_get_affine_coordinates_GFp`: x and y
  pub ec_point_get_affine_coordinates : Point → Option (Bignum × Bignum)
  pub bn_bn2hex : Bignum → Option (List ℕ)
  -- `EC_GROUP`
  pub EcGroup : Type 0
  -- `EC_GROUP_new_by_curve_name(NID_secp256k1)`
  pub ec_group_new : Option EcGroup
  pub ec_group_get_order : EcGroup → Option Bignum
  pub sha256_init : ShaCtx
  pub sha256_update : ShaCtx → List ℕ → ShaCtx
  -- the digest, and the context that is left
  pub sha256_final : ShaCtx → List ℕ × ShaCtx
  -- `SHA512_CTX`
  pub Sha512Ctx : Type 0
  pub sha512_init : Sha512Ctx
  pub sha512_update : Sha512Ctx → List ℕ → Sha512Ctx
  pub sha512_final : Sha512Ctx → List ℕ
  -- whether there is memory for so many bytes
  pub openssl_malloc : ℕ → Bool
  pub rand_bytes : ℕ → World → Option (List ℕ) × World
  -- the bytes of an `unsigned int` as they stand in memory
  pub unsigned_bytes : ℕ → List ℕ

-- `BN_nnmod` with a context or with NULL
abbrev pub nnmod : (o : OpenSsl) → o.Bignum → o.Bignum → Option o.BnCtx → Outcome (Option o.Bignum)
nnmod o a m (some ctx) = returns (o.bn_nnmod a m ctx)
nnmod o a m none = o.bn_nnmod_null a m
