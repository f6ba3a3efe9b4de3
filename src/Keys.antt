-- ===== src/Keys.antt =====
-- src/libSchnorr/src/Schnorr_PrivKey.cpp, Schnorr_PubKey.cpp and Schnorr_Signature.cpp: the classes of
-- include/Schnorr.h. A smart pointer of these classes is never null once a constructor has
-- returned, so a field holds its number or point. The copies are deep: no two objects share one.
pub mod RoundTrip
pub mod Order
use schnorr.Common.{
  ℕ, zero, suc, List, Bool, true, false, Option, none, some, Ordering, ◌&&◌, ◌||◌, not,
  if◌then◌else◌, add32,
}
use schnorr.Run.{
  Outcome, Run, returns, out_of_fuel, bad_alloc, next, finish, or_throw, or_return, call, ◌>>=◌,
}
use schnorr.OpenSsl.{OpenSsl}
use schnorr.BignumSerialize
use schnorr.EcPointSerialize
use schnorr.Sizes.{priv_key_size, pub_key_size, signature_challenge_size, signature_response_size}

pub record PrivKey (o : OpenSsl) : Type 0 where
  pub d : o.Bignum

pub record PubKey (o : OpenSsl) : Type 0 where
  pub p : o.Point

pub record Signature (o : OpenSsl) : Type 0 where
  pub r : o.Bignum
  pub s : o.Bignum

-- `BN_cmp(…) == -1`, `== 0`
abbrev pub is_lt : Ordering → Bool
is_lt Ordering.lt = true
is_lt Ordering.eq = false
is_lt Ordering.gt = false

abbrev pub is_eq : Ordering → Bool
is_eq Ordering.lt = false
is_eq Ordering.eq = true
is_eq Ordering.gt = false

-- What a copy that may fail leaves in its target.
abbrev pub kept : {A : Type 0} → Option A → A → A
kept none old = old
kept (some new) old = new

module _ (o : OpenSsl) where
  -- `BN_new`, `EC_POINT_new` and `constructPreChecks`
  abbrev pub new_bignum : {R : Type 0} → Run R o.Bignum
  new_bignum = or_throw o.bn_new bad_alloc

  abbrev pub new_point : {R : Type 0} → Run R o.Point
  new_point = or_throw o.ec_point_new bad_alloc

  -- The loop of `PrivKey()`. A failed draw ends it, with the number as it was.
  unfoldable pub draw_key : ℕ → o.Bignum → o.World → Outcome (o.Bignum × o.World)
  draw_key zero d w = out_of_fuel
  draw_key (suc fuel) d w =
      let (drawn, w') = o.bn_rand_range o.curve_order w in
      elim drawn [
        | none ↦ returns (d, w')
        | some d' ↦ elim (o.bn_is_zero d') [ true ↦ draw_key fuel d' w' | false ↦ returns (d', w') ]
      ]

  unfoldable pub priv_key_generate : ℕ → o.World → Outcome (PrivKey o × o.World)
  priv_key_generate fuel w =
      finish do d ← new_bignum; (d', w') ← call (draw_key fuel d w); next (record { d = d' }, w')

  unfoldable pub priv_key_copy : PrivKey o → Outcome (PrivKey o)
  priv_key_copy src = finish do d ← new_bignum; next (record { d = kept (o.bn_copy src.d) d })

  -- `operator=` on an object
  unfoldable pub priv_key_assign : PrivKey o → PrivKey o → PrivKey o
  priv_key_assign self src = record { d = kept (o.bn_copy src.d) self.d }

  unfoldable pub priv_key_eq : PrivKey o → PrivKey o → Bool
  priv_key_eq a b = is_eq (o.bn_cmp a.d b.d)

  unfoldable pub priv_key_serialize : PrivKey o → List ℕ → ℕ → List ℕ × Bool
  priv_key_serialize self dst offset =
      (BignumSerialize.set_number o dst offset priv_key_size self.d, true)

  unfoldable pub priv_key_deserialize : PrivKey o → List ℕ → ℕ → PrivKey o × Bool
  priv_key_deserialize self src offset =
      elim (BignumSerialize.get_number o src offset priv_key_size) [
        | none ↦ (self, false)
        | some result ↦ elim (o.bn_copy result) [
          | none ↦ (self, false)
          | some d ↦ (record { d = d }, true)
        ]
      ]

  unfoldable pub priv_key_from_bytes : List ℕ → ℕ → Outcome (PrivKey o)
  priv_key_from_bytes src offset =
      finish do d ← new_bignum; next (priv_key_deserialize (record { d = d }) src offset).0

  -- `PubKey()`
  unfoldable pub pub_key_new : Outcome (PubKey o)
  pub_key_new = finish do p ← new_point; next (record { p = p })

  -- `PubKey(privkey)`. A key out of range leaves the new point as it is.
  unfoldable pub pub_key_of : PrivKey o → Outcome (PubKey o)
  pub_key_of privkey = finish do
    p ← new_point
    let made = kept (o.ec_point_mul privkey.d none) p
    if o.bn_is_zero privkey.d || not (is_lt (o.bn_cmp privkey.d o.curve_order))
        then next (record { p = p })
        else next (record { p = made })

  unfoldable pub pub_key_copy : PubKey o → Outcome (PubKey o)
  pub_key_copy src = finish do p ← new_point; next (record { p = kept (o.ec_point_copy src.p) p })

  unfoldable pub pub_key_assign : PubKey o → PubKey o → PubKey o
  pub_key_assign self src = record { p = kept (o.ec_point_copy src.p) self.p }

  unfoldable pub pub_key_serialize : PubKey o → List ℕ → ℕ → Outcome (List ℕ × Bool)
  pub_key_serialize self dst offset = finish do
    dst' ← call (EcPointSerialize.set_number o dst offset pub_key_size self.p)
    next (dst', true)

  unfoldable pub pub_key_deserialize : PubKey o → List ℕ → ℕ → Outcome (PubKey o × Bool)
  pub_key_deserialize self src offset = finish do
    found ← call (EcPointSerialize.get_number o src offset pub_key_size)
    result ← or_return found (self, false)
    p ← or_return (o.ec_point_copy result) (self, false)
    next (record { p = p }, true)

  unfoldable pub pub_key_from_bytes : List ℕ → ℕ → Outcome (PubKey o)
  pub_key_from_bytes src offset = finish do
    p ← new_point
    (key, _) ← call (pub_key_deserialize (record { p = p }) src offset)
    next key

  -- `comparePreChecks`: the two numbers that are compared
  unfoldable pub pub_key_compare : PubKey o → PubKey o → Outcome (o.Bignum × o.Bignum)
  pub_key_compare self r = finish do
    ctx ← or_throw o.bn_ctx_new bad_alloc
    let lhs = o.ec_point_point2bn self.p
    let rhs = o.ec_point_point2bn r.p
    lhs_bnvalue ← or_throw lhs bad_alloc
    rhs_bnvalue ← or_throw rhs bad_alloc
    next (lhs_bnvalue, rhs_bnvalue)

  unfoldable pub pub_key_lt : PubKey o → PubKey o → Outcome Bool
  pub_key_lt self r = finish do (a, b) ← call (pub_key_compare self r); next (is_lt (o.bn_cmp a b))

  unfoldable pub pub_key_gt : PubKey o → PubKey o → Outcome Bool
  pub_key_gt self r = pub_key_lt r self

  unfoldable pub pub_key_eq : PubKey o → PubKey o → Outcome Bool
  pub_key_eq self r = finish do (a, b) ← call (pub_key_compare self r); next (is_eq (o.bn_cmp a b))

  unfoldable pub pub_key_ne : PubKey o → PubKey o → Outcome Bool
  pub_key_ne self r = finish do equal ← call (pub_key_eq self r); next (not equal)

  unfoldable pub signature_new : Outcome (Signature o)
  signature_new = finish do r ← new_bignum; s ← new_bignum; next (record { r = r; s = s })

  -- The copy constructor: where the first copy fails, the second is not made.
  unfoldable pub signature_copy : Signature o → Outcome (Signature o)
  signature_copy src = finish do
    r ← new_bignum
    s ← new_bignum
    r' ← or_return (o.bn_copy src.r) (record { r = r; s = s })
    next (record { r = r'; s = kept (o.bn_copy src.s) s })

  unfoldable pub signature_assign : Signature o → Signature o → Signature o
  signature_assign self src = record {
    r = kept (o.bn_copy src.r) self.r;
    s = kept (o.bn_copy src.s) self.s;
  }

  unfoldable pub signature_eq : Signature o → Signature o → Bool
  signature_eq a b = is_eq (o.bn_cmp a.r b.r) && is_eq (o.bn_cmp a.s b.s)

  unfoldable pub signature_serialize : Signature o → List ℕ → ℕ → List ℕ × Bool
  signature_serialize self dst offset =
      let first = BignumSerialize.set_number o dst offset signature_challenge_size self.r in
      let second =
        BignumSerialize.set_number o first (add32 offset signature_challenge_size)
          signature_response_size self.s in
      (second, true)

  unfoldable pub signature_deserialize : Signature o → List ℕ → ℕ → Outcome (Signature o × Bool)
  signature_deserialize self src offset = finish do
    let got_r = BignumSerialize.get_number o src offset signature_challenge_size
    let got_s =
        BignumSerialize.get_number o src (add32 offset signature_challenge_size)
          signature_response_size
    result_r ← or_return got_r (self, false)
    result_s ← or_return got_s (self, false)
    r ← or_return (o.bn_copy result_r) (self, false)
    s ← or_return (o.bn_copy result_s) (record self { r = r }, false)
    next (record { r = r; s = s }, true)

  unfoldable pub signature_from_bytes : List ℕ → ℕ → Outcome (Signature o)
  signature_from_bytes src offset = finish do
    r ← new_bignum
    s ← new_bignum
    (sig, _) ← call (signature_deserialize (record { r = r; s = s }) src offset)
    next sig
