-- ===== src/MultiSig/Memory/Aggregates.antt =====
-- `AggregateResponses` of Memory.antt leaves what that by value leaves.
use schnorr.Common.{
  ℕ, ◌+◌, ◌^◌, ◌==◌, ◌≤◌, ◌≡◌, refl, sym, ap, ◌∙◌, subst, List, [], ◌∷◌, map, All, Option, none,
  some, inl, inr, arith,
}
use mathlib.Core.Option.{some-injective}
use schnorr.Run.{wraps_if, bad_alloc, next, finish, deref, or_return, ◌>>=◌}
use schnorr.Run.Both.{
  Both, wraps_if-Both, or_throw-Both, deref-Both, calls-Both, assoc-Both, or_return_same-Both,
}
use schnorr.OpenSsl.{OpenSsl}
use schnorr.MultiSig.Objects.{NumberObject, number_copy}
use schnorr.MultiSig.Response
use schnorr.MultiSig.Aggregate.{add_responses, aggregate_responses}
use schnorr.MultiSig.Memory.{
  Memory, Handle, put, view, Left, copy_at, add_responses_at, aggregate_responses_at,
}
use schnorr.MultiSig.Memory.Frames.{
  Framed, Simulates, IsInside, put-other, view-own, copy_at-number_copy,
}

module _ (o : OpenSsl) (m : Memory o) where
  -- No object, or the same.
  abbrev pub SimulatesSum : Option (Left o) → Option (NumberObject o) → Type 0
  SimulatesSum none none = Unit
  SimulatesSum (some r) (some x) = Simulates o m none r x
  SimulatesSum _ _ = ⊥

  -- Where the aggregate is new, a sum is written over it alone.
  summed-Framed :
      (n : Memory o) (acc : Handle) (a : ℕ) (sum : o.Bignum)
      → Framed o m none (n, acc)
      → acc.pointer ≡ some a
      → (m.top ≤ a)
      → Framed o m none (put o n a sum, acc)
  summed-Framed n acc a sum t e new = record {
    top_le = t.top_le;
    kept = λ c lt ne. put-other o n a c sum (λ q. omega arith) ∙ t.kept c lt ne;
    held = t.held;
  }

  new_address :
      (n : Memory o) (acc : Handle) (a : ℕ)
      → Framed o m none (n, acc)
      → acc.pointer ≡ some a
      → m.top ≤ a
  new_address n acc a t e = elim t.held [
    | inl old ↦ cc
    | inr (b, new, le, lt) ↦
        let same : a ≡ b = some-injective _ _ (sym e ∙ new) in omega (arith, same)
  ]

  add_responses_at-add_responses :
      (i : ℕ) (n : Memory o) (acc : Handle) (rs : List Handle)
      → Framed o m none (n, acc)
      → All (IsInside o m) rs
      → Both SimulatesSum
          (finish (add_responses_at o i n acc rs >>= λ total. next (some (total, acc))))
          (finish (add_responses o i (view o n acc) (map (view o m) rs) >>= λ t. next (some t)))
  unfolding add_responses_at add_responses
  add_responses_at-add_responses i n acc [] t all = (refl, t)
  add_responses_at-add_responses i n acc (r ∷ rs) t (inside, all) =
      let S = SimulatesSum in
      assoc-Both S (deref acc.pointer) _ _ (deref (view o n acc).number) _ _ (
        deref-Both S n.cells acc.pointer _ _ (λ a e.
          assoc-Both S (deref r.pointer) _ _ (deref (view o m r).number) _ _ (
            deref-Both S m.cells r.pointer _ _ (λ b f.
              let read = t.kept b (inside b f) (λ q. cc) in
              assoc-Both S (or_return (o.bn_mod_add (n.cells a) (n.cells b) o.curve_order) none) _ _
                (or_return (o.bn_mod_add (n.cells a) (m.cells b) o.curve_order) none) _ _
                (or_return_same-Both S _ (o.bn_mod_add (n.cells a) (m.cells b) o.curve_order) none
                  none _ _ (ap (λ x. o.bn_mod_add (n.cells a) x o.curve_order) read) tt
                  (λ sum.
                    assoc-Both S (wraps_if (i + 1 == 2 ^ 32)) _ _ (wraps_if (i + 1 == 2 ^ 32)) _ _ (
                      wraps_if-Both S (i + 1 == 2 ^ 32) _ _ (
                        subst
                          (λ x.
                            Both S
                              (finish (
                                add_responses_at o (i + 1) (put o n a sum) acc rs >>= λ total.
                                next (some (total, acc))))
                              (finish (
                                add_responses o (i + 1) x (map (view o m) rs) >>= λ v.
                                next (some v))))
                          (view-own o n acc.pointer a sum acc.initialized e)
                          (add_responses_at-add_responses (i + 1) (put o n a sum) acc rs
                            (summed-Framed n acc a sum t e (new_address n acc a t e)) all)))))))))

  pub aggregate_responses_at-aggregate_responses :
      (rs : List Handle)
      → All (IsInside o m) rs
      → Both SimulatesSum
          (aggregate_responses_at o m rs)
          (aggregate_responses o (map (view o m) rs))
  unfolding aggregate_responses_at aggregate_responses add_responses_at Response.copy number_copy
  aggregate_responses_at-aggregate_responses [] all = tt
  aggregate_responses_at-aggregate_responses (r ∷ rs) (inside, all) =
      calls-Both SimulatesSum (Simulates o m none) (copy_at o m r) (number_copy o (view o m r)) _ _
        (copy_at-number_copy o m none r inside)
        (λ c x t. or_throw-Both SimulatesSum o.bn_ctx_new bad_alloc _ _ (λ ctx.
          subst
            (λ v.
              Both SimulatesSum
                (finish (add_responses_at o 1 c.0 c.1 rs >>= λ total. next (some (total, c.1))))
                (finish (add_responses o 1 v (map (view o m) rs) >>= λ v'. next (some v'))))
            t.0 (add_responses_at-add_responses 1 c.0 c.1 rs t.1 all)))
