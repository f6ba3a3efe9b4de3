-- ===== src/EcPointSerialize.antt =====
-- src/libSchnorr/src/ECPOINTSerialize.cpp. The lock guards OpenSSL and keeps no state.
use schnorr.Common.{ℕ, List, Option, none}
use schnorr.Run.{Outcome, bad_alloc, next, finish, or_throw, or_return, ◌>>=◌}
use schnorr.OpenSsl.{OpenSsl}
use schnorr.BignumSerialize

module _ (o : OpenSsl) where
  unfoldable pub get_number : List ℕ → ℕ → ℕ → Outcome (Option o.Point)
  get_number src offset size = finish do
    bnvalue ← or_return (BignumSerialize.get_number o src offset size) none
    ctx ← or_throw o.bn_ctx_new bad_alloc
    next (o.ec_point_bn2point bnvalue)

  unfoldable pub set_number : List ℕ → ℕ → ℕ → o.Point → Outcome (List ℕ)
  set_number dst offset size value = finish do
    ctx ← or_throw o.bn_ctx_new bad_alloc
    bnvalue ← or_return (o.ec_point_point2bn value) dst
    next (BignumSerialize.set_number o dst offset size bnvalue)
