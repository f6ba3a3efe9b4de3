-- ===== src/MultiSig/Aggregate.antt =====
-- src/libSchnorr/src/MultiSig.cpp: `class MultiSig`, but for `MultiSigVerify` (Verify.antt). `nullptr`
-- is `none`.
use schnorr.Common.{
  ℕ, ◌+◌, ◌^◌, ◌==◌, List, [], ◌∷◌, Bool, true, false, Option, none, some, ◌||◌, not,
}
use schnorr.Run.{
  Outcome, Run, returns, bad_alloc, next, finish, or_throw, or_return, return_if, wraps_if, call,
  deref, catch_return, ◌>>=◌, ◌>>◌,
}
use schnorr.OpenSsl.{OpenSsl}
use schnorr.Keys.{PubKey, Signature, is_lt, pub_key_copy, signature_new}
use schnorr.MultiSig.CommitPoint
use schnorr.MultiSig.CommitPoint.{CommitPoint, is_same}
use schnorr.MultiSig.Response
use schnorr.MultiSig.Response.{Response}
use schnorr.MultiSig.Challenge.{Challenge}

module _ (o : OpenSsl) where
  -- The loops of the three functions, over what follows the first element. The counter `i` is an
  -- `unsigned int` that is compared with the size of the list: where it comes back to 0, the loop starts
  -- again from the first element, and is given up here.
  unfoldable pub add_pub_keys : ℕ → PubKey o → List (PubKey o) → Run (Option (PubKey o)) (PubKey o)
  add_pub_keys i acc [] = next acc
  add_pub_keys i acc (k ∷ ks) = do
    sum ← or_return (o.ec_point_add acc.p k.p) none
    wraps_if (i + 1 == 2 ^ 32)
    add_pub_keys (i + 1) (record { p = sum }) ks

  unfoldable pub aggregate_pub_keys : List (PubKey o) → Outcome (Option (PubKey o))
  unfolding add_pub_keys
  aggregate_pub_keys [] = returns none
  aggregate_pub_keys (k ∷ ks) = finish do
    aggregated ← call (pub_key_copy o k)
    total ← add_pub_keys 1 aggregated ks
    next (some total)

  unfoldable pub add_commits :
      ℕ → CommitPoint o → List (CommitPoint o) → Run (Option (CommitPoint o)) (CommitPoint o)
  add_commits i acc [] = next acc
  add_commits i acc (c ∷ cs) = do
    p ← deref acc.point
    q ← deref c.point
    sum ← or_return (o.ec_point_add p q) none
    wraps_if (i + 1 == 2 ^ 32)
    add_commits (i + 1) (record acc { point = some sum }) cs

  unfoldable pub aggregate_commits : List (CommitPoint o) → Outcome (Option (CommitPoint o))
  unfolding add_commits
  aggregate_commits [] = returns none
  aggregate_commits (c ∷ cs) = finish do
    aggregated ← call (CommitPoint.copy o c)
    total ← add_commits 1 aggregated cs
    next (some total)

  unfoldable pub add_responses :
      ℕ → Response o → List (Response o) → Run (Option (Response o)) (Response o)
  add_responses i acc [] = next acc
  add_responses i acc (r ∷ rs) = do
    a ← deref acc.number
    b ← deref r.number
    sum ← or_return (o.bn_mod_add a b o.curve_order) none
    wraps_if (i + 1 == 2 ^ 32)
    add_responses (i + 1) (record acc { number = some sum }) rs

  unfoldable pub aggregate_responses : List (Response o) → Outcome (Option (Response o))
  unfolding add_responses
  aggregate_responses [] = returns none
  aggregate_responses (r ∷ rs) = finish do
    aggregated ← call (Response.copy o r)
    ctx ← or_throw o.bn_ctx_new bad_alloc
    total ← add_responses 1 aggregated rs
    next (some total)

  unfoldable pub aggregate_sign : Challenge o → Response o → Outcome (Option (Signature o))
  aggregate_sign challenge aggregated_response = finish do
    return_if (not challenge.initialized) none
    return_if (not aggregated_response.initialized) none
    result ← call (signature_new o)
    c ← deref challenge.number
    r ← or_return (o.bn_copy c) none
    n ← deref aggregated_response.number
    s ← or_return (o.bn_copy n) none
    next (some (record { r = r; s = s }))

  -- The `try` block of `VerifyResponse`.
  unfoldable pub verify_response_main :
      Response o → Challenge o → PubKey o → CommitPoint o → Outcome Bool
  verify_response_main response challenge pubkey commit_point = finish do
    return_if (not response.initialized) false
    return_if (not challenge.initialized) false
    return_if (not commit_point.initialized) false
    point_new ← or_throw o.ec_point_new bad_alloc
    ctx ← or_throw o.bn_ctx_new bad_alloc
    r ← deref response.number
    return_if (o.bn_is_zero r || not (is_lt (o.bn_cmp r o.curve_order))) false
    c ← deref challenge.number
    q ← or_return (o.ec_point_mul r (some (pubkey.p, c))) false
    p ← deref commit_point.point
    return_if (not (is_same (o.ec_point_cmp q p))) false
    next true

  unfoldable pub verify_response :
      Response o → Challenge o → PubKey o → CommitPoint o → Outcome Bool
  verify_response response challenge pubkey commit_point =
      catch_return (verify_response_main response challenge pubkey commit_point) false
