-- ===== src/MultiSig/Reached/Steps.antt =====
-- src/libSchnorr/src/MultiSig_*.cpp: what each function that changes a number object leaves.
use schnorr.Common.{◌+◌, ◌^◌, ◌==◌, subst, sym, ap}
use schnorr.Run.{wraps_if, bind_assoc}
use schnorr.Run.Ends.{wraps_if-Ends}
use schnorr.Common.{
  ℕ, List, [], ◌∷◌, inl, inr, refl, true, false, Option, none, some, not, length, ltb, ◌==◌, add32,
  Bool-cases, Option-cases, zero, suc,
}
use schnorr.Run.{Run, next, bad_alloc, ◌>>=◌, finish, finish-call}
use schnorr.Run.Ends.{
  Ends, return_if-Ends, or_return-Ends, called_or_return-Ends, or_throw-Ends, deref-Ends, call-Ends,
  call_known-Ends,
}
use schnorr.OpenSsl.{OpenSsl, nnmod}
use schnorr.Keys.{PrivKey, PubKey}
use schnorr.Sha2
use schnorr.BignumSerialize
use schnorr.MultiSig.Objects.{
  NumberObject, number_new, number_copy, number_assign, number_deserialize, copied,
}
use schnorr.MultiSig.CommitSecret
use schnorr.MultiSig.CommitPoint.{CommitPoint}
use schnorr.MultiSig.CommitPointHash
use schnorr.MultiSig.Challenge
use schnorr.MultiSig.Response
use schnorr.MultiSig.Aggregate.{add_responses, aggregate_responses}
use schnorr.Verify.{octets_or_return}
use schnorr.MultiSig.Reached.{Invariant}

module _ (o : OpenSsl) where
  octets-Ends :
      {R : Type 0} (P : R → Type 0) (p : o.Point) (r : R) (f : List ℕ → Run R R)
      → P r
      → ((bs : List ℕ) → Ends P (finish (f bs)))
      → Ends P (finish (octets_or_return o p r >>= f))
  octets-Ends P p r f h t = elim (Bool-cases (not (length (o.ec_point_point2oct p 33) == 33))) [
    | inl e ↦ rw e h
    | inr e ↦ rw e (t (o.ec_point_point2oct p 33))
  ]

  copied-Invariant : (target src : o.Bignum) → (Invariant o) (copied o target src)
  copied-Invariant target src = elim (Option-cases (o.bn_copy src)) [
    | inl e ↦ rw (e, copied) (inl refl)
    | inr (n, e) ↦ rw (e, copied) (inr (n, refl))
  ]

  pub number_new-Invariant : Ends (Invariant o) (number_new o)
  unfolding number_new
  number_new-Invariant = or_throw-Ends (Invariant o) o.bn_new bad_alloc _ (λ n. inl refl)

  draw-Invariant :
      (fuel : ℕ) (n : o.Bignum) (w : o.World)
      → Ends (λ (r : NumberObject o × o.World). (Invariant o) r.0) (CommitSecret.draw o fuel n w)
  unfolding CommitSecret.draw
  draw-Invariant zero n w = tt
  draw-Invariant (suc fuel) n w = elim (Option-cases (o.bn_rand_range o.curve_order w).0) [
    | inl e ↦ rw (e, CommitSecret.draw) (inl refl)
    | inr (m, e) ↦ elim (Bool-cases (o.bn_is_zero m)) [
      | inl z ↦
          rw (e, z, CommitSecret.draw) (draw-Invariant fuel m (o.bn_rand_range o.curve_order w).1)
      | inr z ↦ rw (e, z, CommitSecret.draw) (inr (m, refl))
    ]
  ]

  pub generate-Invariant :
      (fuel : ℕ) (w : o.World)
      → Ends (λ (r : NumberObject o × o.World). (Invariant o) r.0) (CommitSecret.generate o fuel w)
  unfolding CommitSecret.generate
  generate-Invariant fuel w =
      or_throw-Ends _ o.bn_new bad_alloc _
        (λ n. rw (finish-call (CommitSecret.draw o fuel n w)) (draw-Invariant fuel n w))

  pub number_copy-Invariant : (src : NumberObject o) → Ends (Invariant o) (number_copy o src)
  unfolding number_copy
  number_copy-Invariant src =
      or_throw-Ends (Invariant o) o.bn_new bad_alloc _
        (λ n. deref-Ends (Invariant o) src.number _ (λ m. copied-Invariant n m))

  pub number_assign-Invariant :
      (self src : NumberObject o) → Ends (Invariant o) (number_assign o self src)
  unfolding number_assign
  number_assign-Invariant self src =
      deref-Ends (Invariant o) self.number _
        (λ n. deref-Ends (Invariant o) src.number _ (λ m. copied-Invariant n m))

  pub number_deserialize-Invariant :
      (self : NumberObject o) (size : ℕ) (src : List ℕ) (offset : ℕ)
      → (Invariant o) self
      → (Invariant o) (number_deserialize o size self src offset).0
  unfolding number_deserialize
  number_deserialize-Invariant self size src offset h =
      elim (Option-cases (BignumSerialize.get_number o src offset size)) [
        | inl e ↦ rw (e, number_deserialize) h
        | inr (n, e) ↦ rw (e, number_deserialize) (inr (n, refl))
      ]

  abbrev unset : Option o.Bignum → NumberObject o
  unset n = record { number = n; initialized = false }

  abbrev set : o.Bignum → NumberObject o
  set n = record { number = some n; initialized = true }

  pub hash_set-Invariant :
      (self : NumberObject o) (point : CommitPoint o)
      → (Invariant o) self
      → Ends (Invariant o) (CommitPointHash.set o self point)
  unfolding CommitPointHash.set
  hash_set-Invariant self point h = return_if-Ends (Invariant o) (not point.initialized) self _ h (
      call-Ends (Invariant o) (Sha2.new o 256) _ (λ s. deref-Ends (Invariant o) point.point _ (λ p.
        octets-Ends (Invariant o) p _ _ (inl refl) (λ bs.
          or_return-Ends (Invariant o)
            (o.bn_bin2bn (Sha2.finalize o (Sha2.update o (Sha2.update o s (0x01 ∷ [])) bs)).0)
            (unset self.number) _ (inl refl)
            (λ a. deref-Ends (Invariant o) self.number _ (λ t.
              called_or_return-Ends (Invariant o) (nnmod o a o.curve_order none) (unset (some a))
                (λ b. next (set b)) (inl refl) (λ b. inr (b, refl))))))))

  pub challenge_set-Invariant :
      (self : NumberObject o) (commit : CommitPoint o) (key : PubKey o) (message : List ℕ)
      (offset size : ℕ)
      → (Invariant o) self
      → Ends (Invariant o) (Challenge.set o self commit key message offset size)
  unfolding Challenge.set
  challenge_set-Invariant self commit key message offset size h =
      return_if-Ends (Invariant o) (not commit.initialized) self _ h (
        return_if-Ends (Invariant o) (length message == 0) self _ h (
          return_if-Ends (Invariant o) (ltb (length message) (add32 offset size)) self _ h (
            call-Ends (Invariant o) (Sha2.new o 256) _ (λ s.
              deref-Ends (Invariant o) commit.point _ (λ p.
                octets-Ends (Invariant o) p _ _ (inl refl) (λ bs.
                  octets-Ends (Invariant o) key.p _ _ (inl refl) (λ cs.
                    call-Ends (Invariant o)
                      (Sha2.update_range o
                        (Sha2.update o (Sha2.update o (Sha2.update o s (0x11 ∷ [])) bs) cs) message
                        offset size)
                      _
                      (λ (hashed : Sha2.Sha2 o).
                        or_return-Ends (Invariant o) (o.bn_bin2bn (Sha2.finalize o hashed).0)
                          (unset self.number) _ (inl refl)
                          (λ a. deref-Ends (Invariant o) self.number _ (λ t.
                            called_or_return-Ends (Invariant o) (nnmod o a o.curve_order none)
                              (unset (some a)) (λ b. next (set b)) (inl refl)
                              (λ b. inr (b, refl))))))))))))

  pub response_set-Invariant :
      (self secret challenge : NumberObject o) (d : PrivKey o)
      → (Invariant o) self
      → Ends (Invariant o) (Response.set o self secret challenge d)
  unfolding Response.set
  response_set-Invariant self secret challenge d h =
      return_if-Ends (Invariant o) self.initialized self _ h (
        return_if-Ends (Invariant o) (not secret.initialized) self _ h (
          return_if-Ends (Invariant o) (not challenge.initialized) self _ h (
            or_throw-Ends (Invariant o) o.bn_ctx_new bad_alloc _ (λ ctx.
              deref-Ends (Invariant o) self.number _ (λ r.
                deref-Ends (Invariant o) challenge.number _ (λ c.
                  or_return-Ends (Invariant o) (o.bn_mod_mul c d.d o.curve_order)
                    (unset self.number) _ (inl refl)
                    (λ x. deref-Ends (Invariant o) secret.number _ (λ k.
                      or_return-Ends (Invariant o) (o.bn_mod_sub k x o.curve_order) (unset (some x))
                        (λ s. next (set s)) (inl refl) (λ s. inr (s, refl))))))))))

  -- What a function that may return null returns.
  abbrev pub InvariantOf : Option (NumberObject o) → Type 0
  InvariantOf none = Unit
  InvariantOf (some x) = (Invariant o) x

  add_responses-Ends :
      (i : ℕ) (acc : NumberObject o) (rs : List (NumberObject o))
      → (Invariant o) acc
      → Ends InvariantOf (finish (add_responses o i acc rs >>= (λ total. next (some total))))
  unfolding add_responses
  add_responses-Ends i acc [] h = h
  add_responses-Ends i acc (r ∷ rs) h = elim (Option-cases acc.number) [
    | inl e ↦ rw (e, add_responses) tt
    | inr (a, a_eq) ↦ elim (Option-cases r.number) [
      | inl e ↦ rw (a_eq, e, add_responses) tt
      | inr (b, b_eq) ↦ elim (Option-cases (o.bn_mod_add a b o.curve_order)) [
        | inl e ↦ rw (a_eq, b_eq, e, add_responses) tt
        | inr (c, e) ↦
            let rest =
              add_responses-Ends (i + 1) (record acc { number = some c }) rs (inr (c, refl)) in
            rw (a_eq, b_eq, e, add_responses)
              (subst (Ends InvariantOf)
                (ap finish (sym (bind_assoc (wraps_if (i + 1 == 2 ^ 32)) _ _)))
                (wraps_if-Ends InvariantOf (i + 1 == 2 ^ 32) _ rest))
      ]
    ]
  ]

  pub aggregate_responses-Ends :
      (rs : List (NumberObject o)) → Ends InvariantOf (aggregate_responses o rs)
  unfolding aggregate_responses Response.copy
  aggregate_responses-Ends [] = tt
  aggregate_responses-Ends (r ∷ rs) =
      call_known-Ends InvariantOf (Invariant o) (Response.copy o r) _ (number_copy-Invariant r)
        (λ x h.
          or_throw-Ends InvariantOf o.bn_ctx_new bad_alloc _ (λ ctx. add_responses-Ends 1 x rs h))
