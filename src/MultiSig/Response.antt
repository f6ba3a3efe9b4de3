-- ===== src/MultiSig/Response.antt =====
-- src/libSchnorr/src/MultiSig_Response.cpp: `class Response`.
use schnorr.Common.{ℕ, List, Bool, true, false, some, not}
use schnorr.Run.{
  Outcome, bad_alloc, next, finish, or_throw, or_return, return_if, call, deref, ◌>>=◌, ◌>>◌,
}
use schnorr.OpenSsl.{OpenSsl}
use schnorr.Keys.{PrivKey}
use schnorr.Sizes.{response_size}
use schnorr.MultiSig.CommitSecret.{CommitSecret}
use schnorr.MultiSig.Challenge.{Challenge}
use schnorr.MultiSig.Objects.{
  NumberObject, number_new, number_copy, number_assign, number_eq, number_serialize,
  number_deserialize, blank,
}

abbrev pub Response : OpenSsl → Type 0
Response o = NumberObject o

module _ (o : OpenSsl) where
  unfoldable pub new : Outcome (Response o)
  unfolding number_new
  new = number_new o

  unfoldable pub copy : Response o → Outcome (Response o)
  unfolding number_copy
  copy src = number_copy o src

  unfoldable pub assign : Response o → Response o → Outcome (Response o)
  unfolding number_assign
  assign self src = number_assign o self src

  unfoldable pub eq : Response o → Response o → Outcome Bool
  unfolding number_eq
  eq self r = number_eq o self r

  unfoldable pub serialize : Response o → List ℕ → ℕ → Outcome (List ℕ × Bool)
  unfolding number_serialize
  serialize self dst offset = number_serialize o response_size self dst offset

  unfoldable pub deserialize : Response o → List ℕ → ℕ → Response o × Bool
  unfolding number_deserialize
  deserialize self src offset = number_deserialize o response_size self src offset

  unfoldable pub from_bytes : List ℕ → ℕ → Response o
  unfolding deserialize
  from_bytes src offset = (deserialize (blank o) src offset).0

  -- `Set`. A response that is set already is left alone.
  unfoldable pub set : Response o → CommitSecret o → Challenge o → PrivKey o → Outcome (Response o)
  set self secret challenge privkey = finish do
    return_if self.initialized self
    return_if (not secret.initialized) self
    return_if (not challenge.initialized) self
    let cleared : Response o = record self { initialized = false }
    ctx ← or_throw o.bn_ctx_new bad_alloc
    r ← deref self.number
    c ← deref challenge.number
    product ← or_return (o.bn_mod_mul c privkey.d o.curve_order) cleared
    let multiplied : Response o = record { number = some product; initialized = false }
    k ← deref secret.number
    s ← or_return (o.bn_mod_sub k product o.curve_order) multiplied
    next (record { number = some s; initialized = true })

  unfoldable pub of_secret : CommitSecret o → Challenge o → PrivKey o → Outcome (Response o)
  unfolding new
  of_secret secret challenge privkey =
      finish do self ← call new; call (set self secret challenge privkey)
