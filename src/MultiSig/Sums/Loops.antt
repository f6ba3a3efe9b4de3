-- ===== src/MultiSig/Sums/Loops.antt =====
-- The loops of the three `Aggregate…` functions of src/libSchnorr/src/MultiSig.cpp.
use native.Mathlib.Nat.{mod-lt}
use mathlib.Core.Option.{some-injective}
use schnorr.Common.{
  ℕ, ◌^◌, ◌==◌, arith, ◌<◌, ◌%◌, false, ◌+◌, All, ◌≡◌, sym, ap, ◌∙◌, List, [], ◌∷◌, map, Option,
  none, some,
}
use schnorr.Run.{
  Run, wraps_if, wraps_if-returns, ◌>>◌, deref, deref, deref-returns, returns, finish, next,
  or_return, or_return-returns, bind_assoc, ◌>>=◌, returns-injective,
}
use schnorr.OpenSsl.{OpenSsl}
use schnorr.OpenSsl.Laws.{times, Documented}
use schnorr.OpenSsl.Group
use schnorr.OpenSsl.Group.{sum}
use schnorr.Keys.{PubKey}
use schnorr.Common.{refl}
use schnorr.MultiSig.Response.{Response}
use schnorr.MultiSig.CommitPoint.{CommitPoint}
use schnorr.MultiSig.Aggregate.{add_responses, add_commits, add_pub_keys}

counted :
    {R A : Type 0} (i : ℕ) (k : Run R A) (f : A → Run R R) (x : R)
    → finish ((wraps_if (i + 1 == 2 ^ 32) >> k) >>= f) ≡ returns x
    → ((i + 1 == 2 ^ 32) ≡ false) × (finish (k >>= f) ≡ returns x)
counted i k f x h =
    wraps_if-returns (i + 1 == 2 ^ 32) (k >>= f) x
      (ap finish (sym (bind_assoc (wraps_if (i + 1 == 2 ^ 32)) (λ _. k) f)) ∙ h)

pub some≢none : {A : Type 0} (a : A) → ¬ (◌≡◌ {A = Option A} none (some a))
some≢none a e = cc

module _ (o : OpenSsl) (doc : Documented o) where
  open doc use {group, numbers, curve}

  -- The element of a commitment; of a null pointer, the neutral one.
  abbrev pub element_at : Option o.Point → group.Elt
  element_at none = group.identity
  element_at (some p) = curve.element p

  abbrev pub element_of : CommitPoint o → group.Elt
  element_of c = element_at c.point

  element_at-add :
      (x y : Option o.Point) (p q r : o.Point) (rest : group.Elt)
      → x ≡ some p
      → y ≡ some q
      → o.ec_point_add p q ≡ some r
      → group.add (curve.element r) rest ≡ group.add (element_at x) (group.add (element_at y) rest)
  element_at-add x y p q r rest x_eq y_eq added =
      rw (x_eq, y_eq, curve.add_lem p q r added)
        (group.add_assoc (curve.element p) (curve.element q) rest)

  -- The list `add_pub_keys` sums.
  pub add_pub_keys-sum :
      (i : ℕ) (acc : PubKey o) (ks : List (PubKey o)) (total : PubKey o)
      → finish (add_pub_keys o i acc ks >>= λ t. next (some t)) ≡ returns (some total)
      → curve.element total.p
        ≡ group.add (curve.element acc.p) (sum group (map (λ k. curve.element k.p) ks))
  unfolding add_pub_keys
  add_pub_keys-sum i acc [] total h =
      let same : acc ≡ total = cc (returns-injective h) in
      rw (← same) (sym (Group.add_identity group (curve.element acc.p)))
  add_pub_keys-sum i acc (k ∷ ks) total h =
      let (p, added, rest) =
        or_return-returns (o.ec_point_add acc.p k.p) none _ (some total) (some≢none total)
          (ap finish (sym (bind_assoc (or_return (o.ec_point_add acc.p k.p) none) _ _)) ∙ h) in
      let (_, last) = counted i _ _ (some total) rest in
      add_pub_keys-sum (i + 1) (record { p = p }) ks total last
      ∙ rw (curve.add_lem acc.p k.p p added)
          (group.add_assoc (curve.element acc.p) (curve.element k.p) _)

  pub add_commits-sum :
      (i : ℕ) (acc : CommitPoint o) (cs : List (CommitPoint o)) (total : CommitPoint o)
      → finish (add_commits o i acc cs >>= λ t. next (some t)) ≡ returns (some total)
      → element_of total ≡ group.add (element_of acc) (sum group (map element_of cs))
  unfolding add_commits
  add_commits-sum i acc [] total h =
      let same : acc ≡ total = cc (returns-injective h) in
      rw (← same) (sym (Group.add_identity group (element_of acc)))
  add_commits-sum i acc (c ∷ cs) total h =
      let (p, p_eq, h1) =
        deref-returns acc.point _ (some total)
          (ap finish (sym (bind_assoc (deref acc.point) _ _)) ∙ h) in
      let (q, q_eq, h2) =
        deref-returns c.point _ (some total)
          (ap finish (sym (bind_assoc (deref c.point) _ _)) ∙ h1) in
      let (r, added, h3) =
        or_return-returns (o.ec_point_add p q) none _ (some total) (some≢none total)
          (ap finish (sym (bind_assoc (or_return (o.ec_point_add p q) none) _ _)) ∙ h2) in
      let (_, h4) = counted i _ _ (some total) h3 in
      add_commits-sum (i + 1) (record acc { point = some r }) cs total h4
      ∙ element_at-add acc.point c.point p q r (sum group (map element_of cs)) p_eq q_eq added

  -- s * G for the number s that an object holds; of a null pointer, the neutral element.
  abbrev pub multiple_at : Option o.Bignum → group.Elt
  multiple_at none = group.identity
  multiple_at (some n) = times group (numbers.value n) group.generator

  abbrev pub multiple_of : Response o → group.Elt
  multiple_of r = multiple_at r.number

  multiple_at-add :
      (x y : Option o.Bignum) (a b c : o.Bignum) (rest : group.Elt)
      → x ≡ some a
      → y ≡ some b
      → numbers.value c ≡ (numbers.value a + numbers.value b) % numbers.order
      → group.add (times group (numbers.value c) group.generator) rest
        ≡ group.add (multiple_at x) (group.add (multiple_at y) rest)
  multiple_at-add x y a b c rest x_eq y_eq value =
      let pair =
        Group.times-mod group numbers.order curve.order_times (numbers.value a + numbers.value b)
        ∙ Group.times-add group (numbers.value a) (numbers.value b) group.generator in
      rw (x_eq, y_eq, value, pair) (group.add_assoc _ _ rest)

  -- The number that the object holds is there and in [0, …, order - 1].
  abbrev pub Reduced : Response o → Type 0
  Reduced r =
      (n : o.Bignum) × (r.number ≡ some n)
      × (o.bn_is_negative n ≡ false)
      × (numbers.value n < numbers.order)

  pub same_sign : (x a : o.Bignum) → x ≡ a → o.bn_is_negative x ≡ false → o.bn_is_negative a ≡ false
  same_sign x a e h = rw (← e) h

  pub add_responses-sum :
      (i : ℕ) (acc : Response o) (rs : List (Response o)) (total : Response o)
      → Reduced acc
      → All Reduced rs
      → finish (add_responses o i acc rs >>= λ t. next (some t)) ≡ returns (some total)
      → (multiple_of total ≡ group.add (multiple_of acc) (sum group (map multiple_of rs)))
        × Reduced total
  unfolding add_responses
  add_responses-sum i acc [] total nonneg all h =
      let same : acc ≡ total = cc (returns-injective h) in
      (rw (← same) (sym (Group.add_identity group (multiple_of acc))), rw (← same) nonneg)
  add_responses-sum i acc (r ∷ rs) total (x, x_eq, x_nonneg, x_lt) ((y, y_eq, y_nonneg, y_lt), all)
        h =
      let (a, a_eq, h1) =
        deref-returns acc.number _ (some total)
          (ap finish (sym (bind_assoc (deref acc.number) _ _)) ∙ h) in
      let (b, b_eq, h2) =
        deref-returns r.number _ (some total)
          (ap finish (sym (bind_assoc (deref r.number) _ _)) ∙ h1) in
      let (c, added, h3) =
        or_return-returns (o.bn_mod_add a b o.curve_order) none _ (some total) (some≢none total) (
          ap finish (sym (bind_assoc (or_return (o.bn_mod_add a b o.curve_order) none) _ _))
          ∙ h2) in
      let a_nonneg = same_sign x a (some-injective _ _ (sym x_eq ∙ a_eq)) x_nonneg in
      let b_nonneg = same_sign y b (some-injective _ _ (sym y_eq ∙ b_eq)) y_nonneg in
      let (value, c_nonneg) = numbers.mod_add_lem a b c a_nonneg b_nonneg added in
      let (_, h4) = counted i _ _ (some total) h3 in
      let (total_eq, total_nonneg) =
        add_responses-sum (i + 1) (record acc { number = some c }) rs total
          (c, refl, c_nonneg, rw value (mod-lt _ (omega (arith, numbers.one_lt_order)))) all h4 in
      (
        total_eq
            ∙ multiple_at-add acc.number r.number a b c (sum group (map multiple_of rs)) a_eq b_eq
                value,
        total_nonneg,
      )
