-- ===== src/MultiSig/Order.antt =====
-- src/libSchnorr/src/MultiSig.cpp, `AggregatePubKeys` and `AggregateCommits`: lists in another order.
use mathlib.Core.List.{Perm, foldr}
use mathlib.Core.List.Perm
use mathlib.Core.HLevel.{hedberg}
use native.Mathlib.Decide.{ℕ_discrete}
use schnorr.Common.{◌≡◌, refl, sym, ap, ◌∙◌, List, [], ◌∷◌, map, some, true}
use schnorr.Common.Bytes.{be}
use schnorr.Run.{returns}
use schnorr.OpenSsl.{OpenSsl}
use schnorr.OpenSsl.Laws.{CurveGroup, Documented, NeverFails}
use schnorr.OpenSsl.Group.{sum}
use schnorr.Keys.{PubKey, pub_key_eq}
use schnorr.Keys.Order.{pub_key_order}
use schnorr.MultiSig.CommitPoint.{CommitPoint}
use schnorr.MultiSig.Aggregate.{aggregate_pub_keys, aggregate_commits}
use schnorr.MultiSig.Sums.{aggregate_pub_keys-sum, aggregate_commits-sum, element_of}

module _ (g : CurveGroup) where
  -- Elements are equal or not, as the numbers of their encodings are.
  pub Elt-discrete : Discrete g.Elt
  Elt-discrete p q = elim (ℕ_discrete (be (g.encode p)) (be (g.encode q))) [
    | yes e ↦ yes (g.encode_injective p q e)
    | no n ↦ no (λ e. n (ap (λ x. be (g.encode x)) e))
  ]

  sum-foldr :
      {A : Type 0} (f : A → g.Elt) (xs : List A)
      → sum g (map f xs) ≡ foldr (λ a s. g.add (f a) s) g.identity xs
  sum-foldr f [] = refl
  sum-foldr f (x ∷ xs) = ap (g.add (f x)) (sum-foldr f xs)

  add_left_comm : (a b c : g.Elt) → g.add a (g.add b c) ≡ g.add b (g.add a c)
  add_left_comm a b c =
      sym (g.add_assoc a b c) ∙ ap (λ x. g.add x c) (g.add_comm a b) ∙ g.add_assoc b a c

  -- The sum of a list's elements does not depend on its order.
  pub sum-perm :
      {A : Type 0} (f : A → g.Elt) (xs ys : List A)
      → Perm xs ys
      → sum g (map f xs) ≡ sum g (map f ys)
  sum-perm f xs ys p =
      sum-foldr f xs
      ∙ Perm.foldr-eq (hedberg Elt-discrete) (λ a s. g.add (f a) s)
          (λ a b s. add_left_comm (f a) (f b) s) p g.identity
      ∙ sym (sum-foldr f ys)

module _ (o : OpenSsl) (doc : Documented o) (runs : NeverFails o doc.group doc.numbers) where
  open doc use {group, numbers, curve}

  -- `AggregatePubKeys` gives keys that `operator==` finds equal for two lists that differ in their order
  -- alone, and `AggregateCommits` gives commitments of the same element, where no call of OpenSSL fails.
  pub aggregate_perm :
      (ks ks' : List (PubKey o)) (cs cs' : List (CommitPoint o)) (key key' : PubKey o)
      (commit commit' : CommitPoint o)
      → Perm ks ks'
      → Perm cs cs'
      → aggregate_pub_keys o ks ≡ returns (some key)
      → aggregate_pub_keys o ks' ≡ returns (some key')
      → aggregate_commits o cs ≡ returns (some commit)
      → aggregate_commits o cs' ≡ returns (some commit')
      → (pub_key_eq o key key' ≡ returns true)
        × (element_of o doc commit ≡ element_of o doc commit')
  aggregate_perm ks ks' cs cs' key key' commit commit' p q k_eq k'_eq c_eq c'_eq =
      let keys =
        aggregate_pub_keys-sum o doc runs ks key k_eq
        ∙ sum-perm group (λ (k : PubKey o). curve.element k.p) ks ks' p
        ∙ sym (aggregate_pub_keys-sum o doc runs ks' key' k'_eq) in
      let (_, _, eq, _, decides) = pub_key_order o doc runs key key' in
      (
        eq ∙ ap returns (decides.1 keys),
        aggregate_commits-sum o doc runs cs commit c_eq
            ∙ sum-perm group (element_of o doc) cs cs' q
            ∙ sym (aggregate_commits-sum o doc runs cs' commit' c'_eq),
      )
