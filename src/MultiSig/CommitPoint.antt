-- ===== src/MultiSig/CommitPoint.antt =====
-- src/libSchnorr/src/MultiSig_CommitPoint.cpp: `class CommitPoint`.
use schnorr.Common.{ℕ, List, Bool, true, false, Option, none, some, ◌&&◌, not}
use schnorr.Run.{
  Outcome, bad_alloc, next, finish, or_throw, or_return, return_if, call, deref, ◌>>=◌, ◌>>◌,
}
use schnorr.OpenSsl.{OpenSsl, PointOrder, same, different, cmp_error}
use schnorr.EcPointSerialize
use schnorr.Sizes.{commit_point_size}
use schnorr.MultiSig.CommitSecret.{CommitSecret}

pub record CommitPoint (o : OpenSsl) : Type 0 where
  pub point : Option o.Point
  pub initialized : Bool

-- `EC_POINT_cmp(…) == 0`
abbrev pub is_same : PointOrder → Bool
is_same same = true
is_same different = false
is_same cmp_error = false

module _ (o : OpenSsl) where
  unfoldable pub new : Outcome (CommitPoint o)
  new = finish do
    p ← or_throw o.ec_point_new bad_alloc
    next (record { point = some p; initialized = false })

  -- `CommitPoint::Set`
  unfoldable pub set : CommitPoint o → CommitSecret o → Outcome (CommitPoint o)
  set self secret = finish do
    return_if (not secret.initialized) self
    p ← deref self.point
    n ← deref secret.number
    elim (o.ec_point_mul n none) [
      | none ↦ next (record { point = some p; initialized = false })
      | some q ↦ next (record { point = some q; initialized = true })
    ]

  unfoldable pub of_secret : CommitSecret o → Outcome (CommitPoint o)
  of_secret secret = finish do point ← call new; call (set point secret)

  abbrev pub point_copied : o.Point → o.Point → CommitPoint o
  point_copied target src = elim (o.ec_point_copy src) [
    | none ↦ record { point = some target; initialized = false }
    | some p ↦ record { point = some p; initialized = true }
  ]

  unfoldable pub copy : CommitPoint o → Outcome (CommitPoint o)
  copy src =
      finish do p ← or_throw o.ec_point_new bad_alloc; q ← deref src.point; next (point_copied p q)

  unfoldable pub assign : CommitPoint o → CommitPoint o → Outcome (CommitPoint o)
  assign self src = finish do p ← deref self.point; q ← deref src.point; next (point_copied p q)

  unfoldable pub eq : CommitPoint o → CommitPoint o → Outcome Bool
  eq a b = finish do
    ctx ← or_throw o.bn_ctx_new bad_alloc
    return_if (not (a.initialized && b.initialized)) false
    p ← deref a.point
    q ← deref b.point
    next (is_same (o.ec_point_cmp p q))

  unfoldable pub serialize : CommitPoint o → List ℕ → ℕ → Outcome (List ℕ × Bool)
  serialize self dst offset = finish do
    return_if (not self.initialized) (dst, false)
    p ← deref self.point
    dst' ← call (EcPointSerialize.set_number o dst offset commit_point_size p)
    next (dst', true)

  unfoldable pub deserialize : CommitPoint o → List ℕ → ℕ → Outcome (CommitPoint o × Bool)
  deserialize self src offset = finish do
    found ← call (EcPointSerialize.get_number o src offset commit_point_size)
    p ← or_return found (self, false)
    next (record { point = some p; initialized = true }, true)

  unfoldable pub from_bytes : List ℕ → ℕ → Outcome (CommitPoint o)
  from_bytes src offset = finish do
    (read, _) ← call (deserialize (record { point = none; initialized = false }) src offset)
    next read
