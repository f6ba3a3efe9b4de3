-- ===== src/OpenSsl/Group.antt =====
-- Multiples and sums in the group of the curve.
use schnorr.Common.{
  ℕ, zero, suc, ◌+◌, ◌-◌, ◌*◌, ◌/◌, ◌%◌, ◌<◌, ◌≡◌, refl, sym, ap, ◌∙◌, List, [], ◌∷◌, arith,
}
use schnorr.Common.Modular.{mod-sub-add}
use schnorr.OpenSsl.Laws.{CurveGroup, times}
use native.Mathlib.Nat.{div-add-mod}

module _ (g : CurveGroup) where
  open g use {Elt, identity, add, generator, add_comm, add_assoc, identity_add}

  pub add_identity : (p : Elt) → add p identity ≡ p
  add_identity p = add_comm p identity ∙ identity_add p

  pub add_swap : (a b c d : Elt) → add (add a b) (add c d) ≡ add (add a c) (add b d)
  add_swap a b c d =
      add_assoc a b (add c d)
      ∙ ap (add a) (sym (add_assoc b c d) ∙ ap (λ x. add x d) (add_comm b c) ∙ add_assoc c b d)
      ∙ sym (add_assoc a c (add b d))

  pub times-add : (m n : ℕ) (p : Elt) → times g (m + n) p ≡ add (times g m p) (times g n p)
  times-add zero n p = let e : 0 + n ≡ n = omega arith in rw e (sym (identity_add (times g n p)))
  times-add (suc m) n p =
      let e : suc m + n ≡ suc (m + n) = omega arith in
      rw (e, add_assoc p (times g m p) (times g n p)) (ap (add p) (times-add m n p))

  pub times-identity : (n : ℕ) → times g n identity ≡ identity
  times-identity zero = refl
  times-identity (suc n) = identity_add (times g n identity) ∙ times-identity n

  pub times-times : (m n : ℕ) (p : Elt) → times g m (times g n p) ≡ times g (m * n) p
  times-times zero n p = let e : 0 * n ≡ 0 = omega arith in rw e
  times-times (suc m) n p =
      let e : suc m * n ≡ n + m * n = omega arith in
      rw (e, times-add n (m * n) p) (ap (add (times g n p)) (times-times m n p))

  pub times-add_elt : (n : ℕ) (p q : Elt) → times g n (add p q) ≡ add (times g n p) (times g n q)
  times-add_elt zero p q = sym (identity_add identity)
  times-add_elt (suc n) p q =
      ap (add (add p q)) (times-add_elt n p q) ∙ add_swap p q (times g n p) (times g n q)

  module _ (n : ℕ) (period : times g n generator ≡ identity) where
    -- Multiples of the generator depend on the factor modulo the order alone.
    pub times-mod : (k : ℕ) → times g (k % n) generator ≡ times g k generator
    times-mod k =
        let e : k ≡ (k / n) * n + k % n = omega (arith, div-add-mod k n) in
        let none_left : times g ((k / n) * n) generator ≡ identity =
          sym (times-times (k / n) n generator)
          ∙ ap (times g (k / n)) period
          ∙ times-identity (k / n) in
        sym (
          ap (λ x. times g x generator) e
          ∙ times-add ((k / n) * n) (k % n) generator
          ∙ ap (λ x. add x (times g (k % n) generator)) none_left
          ∙ identity_add (times g (k % n) generator))

    -- The commitment that a verifier rebuilds from s = k - r * d.
    pub rebuilt :
        (k r d : ℕ)
        → 0 < n
        → add (times g ((k + (n - (r * d) % n)) % n) generator) (times g r (times g d generator))
          ≡ times g k generator
    rebuilt k r d pos =
        let s = (k + (n - (r * d) % n)) % n in
        ap (add (times g s generator)) (times-times r d generator)
        ∙ sym (times-add s (r * d) generator)
        ∙ sym (times-mod (s + r * d))
        ∙ ap (λ x. times g x generator) (mod-sub-add n k (r * d) pos)
        ∙ times-mod k

  abbrev pub sum : List Elt → Elt
  sum [] = identity
  sum (p ∷ ps) = add p (sum ps)
