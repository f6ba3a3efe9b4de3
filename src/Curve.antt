-- ===== src/Curve.antt =====
-- src/libSchnorr/src/Schnorr.cpp: `class Schnorr::Curve`, made once before the program runs. The other
-- definitions take what it holds, `Schnorr::GetCurveOrder()`, as `curve_order` of OpenSsl.antt.
use schnorr.Run.{Outcome, bad_alloc, std_exception, next, finish, or_throw, ◌>>=◌}
use schnorr.OpenSsl.{OpenSsl}

-- `m_group` and `m_order`
pub record Curve (o : OpenSsl) : Type 0 where
  pub group : o.EcGroup
  pub order : o.Bignum

module _ (o : OpenSsl) where
  unfoldable pub curve_new : Outcome (Curve o)
  curve_new = finish do
    group ← or_throw o.ec_group_new bad_alloc
    order_new ← or_throw o.bn_new bad_alloc
    order ← or_throw (o.ec_group_get_order group) std_exception
    next (record { group = group; order = order })

  -- `GetCurveGroup` and `GetCurveOrder`
  unfoldable pub get_curve_group : Curve o → o.EcGroup
  get_curve_group curve = curve.group

  unfoldable pub get_curve_order : Curve o → o.Bignum
  get_curve_order curve = curve.order
