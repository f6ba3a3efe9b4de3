-- ===== src/MultiSig/Runs.antt =====
-- The steps of the aggregator, src/libSchnorr/src/MultiSig.cpp, where no call of OpenSSL fails.
use schnorr.Common.{
  ℕ, suc, ◌+◌, ◌^◌, ◌<◌, ◌==◌, false, length, ne→==, arith, ◌≡◌, refl, List, [], ◌∷◌, All, true,
  some, none, not, ap,
}
use schnorr.Run.{
  returns, next, bad_alloc, or_throw-step, or_return-step, deref-step, call-step, return_if-step,
}
use schnorr.OpenSsl.{OpenSsl}
use schnorr.OpenSsl.Laws.{Documented, NeverFails}
use schnorr.Keys.{PubKey, Signature, pub_key_copy, signature_new}
use schnorr.MultiSig.Objects.{number_copy, copied}
use schnorr.MultiSig.CommitPoint
use schnorr.MultiSig.CommitPoint.{CommitPoint}
use schnorr.MultiSig.Challenge.{Challenge}
use schnorr.MultiSig.Response
use schnorr.MultiSig.Response.{Response}
use schnorr.MultiSig.Aggregate.{
  add_pub_keys, add_commits, add_responses, aggregate_pub_keys, aggregate_commits,
  aggregate_responses, aggregate_sign,
}

counts : (i n : ℕ) → i + suc n < 2 ^ 32 → (i + 1 == 2 ^ 32) ≡ false
counts i n small = ne→== (i + 1) (2 ^ 32) (omega arith)

module _ (o : OpenSsl) (doc : Documented o) (runs : NeverFails o doc.group doc.numbers) where
  open doc use {group, numbers, curve}

  -- The pointer of an object is not null.
  abbrev pub HasPoint : CommitPoint o → Type 0
  HasPoint c = (p : o.Point) × (c.point ≡ some p)

  abbrev pub HasNumber : Response o → Type 0
  HasNumber r = (n : o.Bignum) × (r.number ≡ some n)

  add_pub_keys_lem :
      (i : ℕ) (acc : PubKey o) (ks : List (PubKey o))
      → i + length ks < 2 ^ 32
      → (t : PubKey o) × (add_pub_keys o i acc ks ≡ next t)
  unfolding add_pub_keys
  add_pub_keys_lem i acc [] small = (acc, refl)
  add_pub_keys_lem i acc (k ∷ ks) small =
      let (p, e) = runs.point_add acc.p k.p in
      let (t, rest) = add_pub_keys_lem (i + 1) (record { p = p }) ks (omega arith) in
      (t, rw (e, counts i (length ks) small) rest)

  -- An initialized object without a null pointer.
  abbrev pub IsWhole : CommitPoint o → Type 0
  IsWhole c = (c.initialized ≡ true) × HasPoint c

  abbrev pub IsWholeNumber : Response o → Type 0
  IsWholeNumber r = (r.initialized ≡ true) × HasNumber r

  add_commits_lem :
      (i : ℕ) (acc : CommitPoint o) (cs : List (CommitPoint o))
      → i + length cs < 2 ^ 32
      → IsWhole acc
      → All HasPoint cs
      → (t : CommitPoint o) × (add_commits o i acc cs ≡ next t) × IsWhole t
  unfolding add_commits
  add_commits_lem i acc [] small h all = (acc, refl, h)
  add_commits_lem i acc (c ∷ cs) small (init, (p, p_eq)) ((q, q_eq), all) =
      let (r, e) = runs.point_add p q in
      let (t, rest, whole) =
        add_commits_lem (i + 1) (record acc { point = some r }) cs (omega arith) (init, (r, refl))
          all in
      (t, rw (p_eq, q_eq, e, counts i (length cs) small) rest, whole)

  add_responses_lem :
      (i : ℕ) (acc : Response o) (rs : List (Response o))
      → i + length rs < 2 ^ 32
      → IsWholeNumber acc
      → All HasNumber rs
      → (t : Response o) × (add_responses o i acc rs ≡ next t) × IsWholeNumber t
  unfolding add_responses
  add_responses_lem i acc [] small h all = (acc, refl, h)
  add_responses_lem i acc (r ∷ rs) small (init, (a, a_eq)) ((b, b_eq), all) =
      let (c, e) = runs.mod_add a b in
      let (t, rest, whole) =
        add_responses_lem (i + 1) (record acc { number = some c }) rs (omega arith)
          (init, (c, refl)) all in
      (t, rw (a_eq, b_eq, e, counts i (length rs) small) rest, whole)

  pub pub_key_copy-returns : (k : PubKey o) → (copy : PubKey o) × (pub_key_copy o k ≡ returns copy)
  unfolding pub_key_copy
  pub_key_copy-returns k =
      let (p, new) = runs.point_new in
      let (q, copied) = runs.point_copy k.p in
      (_, or_throw-step o.ec_point_new bad_alloc _ new refl)

  commit_copy-returns :
      (c : CommitPoint o)
      → HasPoint c
      → (copy : CommitPoint o) × (CommitPoint.copy o c ≡ returns copy) × IsWhole copy
  unfolding CommitPoint.copy
  commit_copy-returns c (p, held) =
      let (t, new) = runs.point_new in
      let (q, copied) = runs.point_copy p in
      (
        record { point = some q; initialized = true },
        or_throw-step o.ec_point_new bad_alloc _ new
            (deref-step c.point _ held (rw (copied, CommitPoint.point_copied))),
        (refl, (q, refl)),
      )

  response_copy-returns :
      (r : Response o)
      → HasNumber r
      → (copy : Response o) × (Response.copy o r ≡ returns copy) × IsWholeNumber copy
  unfolding Response.copy number_copy
  response_copy-returns r (n, held) =
      let (t, new) = runs.bn_new in
      let (m, made) = runs.bn_copy n in
      (
        record { number = some m; initialized = true },
        or_throw-step o.bn_new bad_alloc _ new (deref-step r.number _ held (rw (made, copied))),
        (refl, (m, refl)),
      )

  pub aggregate_pub_keys-returns :
      (k : PubKey o) (ks : List (PubKey o))
      → 1 + length ks < 2 ^ 32
      → (key : PubKey o) × (aggregate_pub_keys o (k ∷ ks) ≡ returns (some key))
  unfolding aggregate_pub_keys
  aggregate_pub_keys-returns k ks small =
      let (key, key_eq) = pub_key_copy-returns k in
      let (total, total_eq) = add_pub_keys_lem 1 key ks small in
      (total, call-step (pub_key_copy o k) _ key_eq (rw total_eq))

  pub aggregate_commits-returns :
      (c : CommitPoint o) (cs : List (CommitPoint o))
      → 1 + length cs < 2 ^ 32
      → All HasPoint (c ∷ cs)
      → (commit : CommitPoint o) × (aggregate_commits o (c ∷ cs) ≡ returns (some commit))
        × IsWhole commit
  unfolding aggregate_commits
  aggregate_commits-returns c cs small (c_has, cs_have) =
      let (commit, commit_eq, whole) = commit_copy-returns c c_has in
      let (total, total_eq, total_whole) = add_commits_lem 1 commit cs small whole cs_have in
      (total, call-step (CommitPoint.copy o c) _ commit_eq (rw total_eq), total_whole)

  pub aggregate_responses-returns :
      (r : Response o) (rs : List (Response o))
      → 1 + length rs < 2 ^ 32
      → All HasNumber (r ∷ rs)
      → (response : Response o) × (aggregate_responses o (r ∷ rs) ≡ returns (some response))
        × IsWholeNumber response
  unfolding aggregate_responses
  aggregate_responses-returns r rs small (r_has, rs_have) =
      let (response, response_eq, whole) = response_copy-returns r r_has in
      let (total, total_eq, total_whole) = add_responses_lem 1 response rs small whole rs_have in
      (
        total,
        call-step (Response.copy o r) _ response_eq
            (or_throw-step o.bn_ctx_new bad_alloc _ runs.bn_ctx_new.1 (rw total_eq)),
        total_whole,
      )

  -- `AggregateSign` gives a signature for an initialized challenge and response without null pointers,
  -- where no call of OpenSSL fails.
  pub aggregate_sign-returns :
      (challenge : Challenge o) (response : Response o)
      → challenge.initialized ≡ true
      → response.initialized ≡ true
      → HasNumber challenge
      → HasNumber response
      → (sig : Signature o) × (aggregate_sign o challenge response ≡ returns (some sig))
  unfolding aggregate_sign signature_new
  aggregate_sign-returns challenge response c_init r_init (c, c_eq) (n, n_eq) =
      let (new, made) = runs.bn_new in
      let (r, r_copy) = runs.bn_copy c in
      let (s, s_copy) = runs.bn_copy n in
      let blank : Signature o = record { r = new; s = new } in
      let new_eq : signature_new o ≡ returns blank =
        or_throw-step o.bn_new bad_alloc _ made (or_throw-step o.bn_new bad_alloc _ made refl) in
      (
        record { r = r; s = s },
        return_if-step (not challenge.initialized) none _ (ap not c_init) (
            return_if-step (not response.initialized) none _ (ap not r_init) (
              call-step (signature_new o) _ new_eq (
                deref-step challenge.number _ c_eq (
                  or_return-step (o.bn_copy c) none _ r_copy (
                    deref-step response.number _ n_eq
                      (or_return-step (o.bn_copy n) none _ s_copy refl)))))),
      )
