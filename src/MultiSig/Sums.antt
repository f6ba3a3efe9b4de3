-- ===== src/MultiSig/Sums.antt =====
-- The three `Aggregate…` functions of lists of src/libSchnorr/src/MultiSig.cpp, and the elements of what they are given.
mod Loops
pub use Loops.{element_at, element_of, multiple_at, multiple_of, Reduced}
use mathlib.Core.Option.{some-injective}
use schnorr.Common.{true, All, ◌≡◌, sym, ap, ◌∙◌, List, [], ◌∷◌, map, some}
use schnorr.Run.{
  or_throw-returns, bad_alloc, call-returns, deref-returns, returns, returns-injective,
}
use schnorr.OpenSsl.{OpenSsl}
use schnorr.OpenSsl.Laws.{NeverFails, Documented}
use schnorr.OpenSsl.Group
use schnorr.OpenSsl.Group.{sum}
use schnorr.Keys.{pub_key_copy, PubKey}
use schnorr.MultiSig.CommitPoint
use schnorr.MultiSig.Objects.{copied}
use schnorr.Keys.{kept}
use schnorr.Common.{true}
use schnorr.MultiSig.Response
use schnorr.Common.{refl}
use schnorr.MultiSig.Response.{Response}
use schnorr.MultiSig.CommitPoint.{CommitPoint}
use schnorr.MultiSig.Aggregate.{aggregate_responses, aggregate_commits, aggregate_pub_keys}
use schnorr.MultiSig.Sums.Loops.{
  element_at, element_of, multiple_at, multiple_of, Reduced, add_pub_keys-sum, add_commits-sum,
  add_responses-sum, same_sign,
}

module _ (o : OpenSsl) (doc : Documented o) where
  open doc use {group, numbers, curve}

  kept_lem :
      (src target p : o.Point)
      → o.ec_point_copy src ≡ some p
      → ◌≡◌ {A = PubKey o} (record { p = kept (o.ec_point_copy src) target }) (record { p = p })
  kept_lem src target p e = rw e

  point_copied_lem :
      (target src p : o.Point)
      → o.ec_point_copy src ≡ some p
      → CommitPoint.point_copied o target src ≡ record { point = some p; initialized = true }
  point_copied_lem target src p e = rw (e, CommitPoint.point_copied)

  copied_lem :
      (target src n : o.Bignum)
      → o.bn_copy src ≡ some n
      → copied o target src ≡ record { number = some n; initialized = true }
  copied_lem target src n e = rw (e, copied)

  -- What a successful copy of a key, a point or a number holds.
  module _ (runs : NeverFails o group numbers) where
    pub pub_key_copy-element :
        (k key : PubKey o)
        → pub_key_copy o k ≡ returns key
        → curve.element key.p ≡ curve.element k.p
    unfolding pub_key_copy
    pub_key_copy-element k key h =
        let (p, _, h1) = or_throw-returns o.ec_point_new bad_alloc _ key h in
        let (q, copied) = runs.point_copy k.p in
        let same = sym (kept_lem k.p p q copied) ∙ returns-injective h1 in
        rw (← same) (curve.copy_lem k.p q copied)

    commit_copy-element :
        (c copy : CommitPoint o)
        → CommitPoint.copy o c ≡ returns copy
        → (element_of o doc) copy ≡ (element_of o doc) c
    unfolding CommitPoint.copy
    commit_copy-element c copy h =
        let (p, _, h1) = or_throw-returns o.ec_point_new bad_alloc _ copy h in
        let (q, q_eq, h2) = deref-returns c.point _ copy h1 in
        let (r, copied) = runs.point_copy q in
        let same = sym (point_copied_lem p q r copied) ∙ returns-injective h2 in
        rw (← same) (curve.copy_lem q r copied ∙ ap (element_at o doc) (sym q_eq))

    response_copy-multiple :
        (r copy : Response o)
        → (Reduced o doc) r
        → Response.copy o r ≡ returns copy
        → ((multiple_of o doc) copy ≡ (multiple_of o doc) r) × (Reduced o doc) copy
    unfolding Response.copy
    response_copy-multiple r copy (n, n_eq, n_nonneg, n_lt) h =
        let (new, _, h1) = or_throw-returns o.bn_new bad_alloc _ copy h in
        let (m, m_eq, h2) = deref-returns r.number _ copy h1 in
        let (c, copied) = runs.bn_copy m in
        let same = sym (copied_lem new m c copied) ∙ returns-injective h2 in
        let (value, sign) = numbers.copy_lem m c copied in
        let n_m = some-injective _ _ (sym n_eq ∙ m_eq) in
        let m_nonneg = (same_sign o doc) n m (some-injective _ _ (sym n_eq ∙ m_eq)) n_nonneg in
        (
          rw (← same, value) (ap (multiple_at o doc) (sym m_eq)),
          rw (← same) (c, refl, sign ∙ m_nonneg, rw (value, ← n_m) n_lt),
        )

    -- Where `AggregatePubKeys` gives a key, that stands for the sum of the elements of the keys in the
    -- list, where no call of OpenSSL fails.
    pub aggregate_pub_keys-sum :
        (ks : List (PubKey o)) (total : PubKey o)
        → aggregate_pub_keys o ks ≡ returns (some total)
        → curve.element total.p ≡ sum group (map (λ k. curve.element k.p) ks)
    unfolding aggregate_pub_keys
    aggregate_pub_keys-sum [] total h = cc
    aggregate_pub_keys-sum (k ∷ ks) total h =
        let (key, made, h1) = call-returns (pub_key_copy o k) _ (some total) h in
        (add_pub_keys-sum o doc) 1 key ks total h1
        ∙ ap (λ e. group.add e (sum group (map (λ k. curve.element k.p) ks)))
            (pub_key_copy-element k key made)

    -- Where `AggregateCommits` gives a commitment, that stands for the sum of the elements of the
    -- commitments in the list, where no call of OpenSSL fails.
    pub aggregate_commits-sum :
        (cs : List (CommitPoint o)) (total : CommitPoint o)
        → aggregate_commits o cs ≡ returns (some total)
        → (element_of o doc) total ≡ sum group (map (element_of o doc) cs)
    unfolding aggregate_commits
    aggregate_commits-sum [] total h = cc
    aggregate_commits-sum (c ∷ cs) total h =
        let (copy, made, h1) = call-returns (CommitPoint.copy o c) _ (some total) h in
        (add_commits-sum o doc) 1 copy cs total h1
        ∙ ap (λ e. group.add e (sum group (map (element_of o doc) cs)))
            (commit_copy-element c copy made)

    -- Where `AggregateResponses` gives a response to a list whose numbers are all there and in
    -- [0, …, order - 1], its multiple of the generator is the sum of those of the list, and it is such
    -- a number itself, where no call of OpenSSL fails.
    pub aggregate_responses-sum :
        (rs : List (Response o)) (total : Response o)
        → All (Reduced o doc) rs
        → aggregate_responses o rs ≡ returns (some total)
        → ((multiple_of o doc) total ≡ sum group (map (multiple_of o doc) rs))
          × (Reduced o doc) total
    unfolding aggregate_responses
    aggregate_responses-sum [] total all h = cc
    aggregate_responses-sum (r ∷ rs) total (nonneg, all) h =
        let (copy, made, h1) = call-returns (Response.copy o r) _ (some total) h in
        let (ctx, _, h2) = or_throw-returns o.bn_ctx_new bad_alloc _ (some total) h1 in
        let (same, copy_nonneg) = response_copy-multiple r copy nonneg made in
        let (eq, total_nonneg) = (add_responses-sum o doc) 1 copy rs total copy_nonneg all h2 in
        (eq ∙ ap (λ e. group.add e (sum group (map (multiple_of o doc) rs))) same, total_nonneg)
