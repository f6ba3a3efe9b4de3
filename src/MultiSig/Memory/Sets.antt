-- ===== src/MultiSig/Memory/Sets.antt =====
-- The `Set` functions and the constructor `CommitSecret()` of Memory.antt leave what those by value leave.
use mathlib.Core.Path.{ap₂}
use schnorr.Common.{
  [], ◌∷◌, ℕ, ◌≡◌, refl, sym, ap, ◌∙◌, List, Bool, true, false, none, some, not, length, ltb, ◌==◌,
  add32,
}
use schnorr.Run.{Run, bad_alloc, next, finish, deref, called_or_return, ◌>>=◌}
use schnorr.Run.Both.{
  Both, mapped, return_if-Both, or_return-Both, or_return_same-Both, called_or_return_same-Both,
  or_throw-Both, deref-Both, deref_same-Both, call-Both, tested-Both,
}
use schnorr.OpenSsl.{OpenSsl, nnmod}
use schnorr.Keys.{PrivKey, PubKey}
use schnorr.Sha2
use schnorr.Sizes.{
  second_domain_separated_hash_function_byte, third_domain_separated_hash_function_byte,
}
use schnorr.Verify.{octets_or_return}
use schnorr.MultiSig.CommitPoint.{CommitPoint}
use schnorr.MultiSig.CommitPointHash
use schnorr.MultiSig.Challenge
use schnorr.MultiSig.Response
use schnorr.MultiSig.Memory.{
  Memory, Handle, put, view, hash_set_at, challenge_set_at, response_set_at,
}
use schnorr.MultiSig.Memory.Frames.{
  Simulates, Apart, still-Framed, put-Framed, again-Framed, put-same, put-other, view-own,
}

module _ (o : OpenSsl) where
  octets-Both :
      {S T : Type 0} (R : S → T → Type 0) (p : o.Point) (r : S) (r' : T) (f : List ℕ → Run S S)
      (g : List ℕ → Run T T)
      → R r r'
      → ((octets : List ℕ) → Both R (finish (f octets)) (finish (g octets)))
      → Both R (finish (octets_or_return o p r >>= f)) (finish (octets_or_return o p r' >>= g))
  octets-Both R p r r' f g h t =
      let octets = o.ec_point_point2oct p 33 in
      tested-Both R (not (length octets == 33)) r r' octets f g h (t octets)

  module _ (m : Memory o) (self : Handle) where
    unchanged-Here : Simulates o m self.pointer (m, self) (view o m self)
    unchanged-Here = (refl, still-Framed o m self self refl)

    -- An early return, with the flag cleared.
    cleared-Here :
        Simulates o m self.pointer
          (m, record self { initialized = false })
          (record (view o m self) { initialized = false })
    cleared-Here = (refl, still-Framed o m self (record self { initialized = false }) refl)

    -- A return behind the first write of the own number.
    written-Here :
        (a : ℕ) (b : o.Bignum) (flag : Bool)
        → self.pointer ≡ some a
        → Simulates o m self.pointer
            (put o m a b, record self { initialized = flag })
            (record { number = some b; initialized = flag })
    written-Here a b flag e =
        (view-own o m self.pointer a b flag e, put-Framed o m self.pointer a b _ e refl)

    -- And behind the second.
    rewritten-Here :
        (a : ℕ) (b c : o.Bignum) (flag : Bool)
        → self.pointer ≡ some a
        → Simulates o m self.pointer
            (put o (put o m a b) a c, record self { initialized = flag })
            (record { number = some c; initialized = flag })
    rewritten-Here a b c flag e = (
      view-own o (put o m a b) self.pointer a c flag e,
      again-Framed o m (put o m a b) self.pointer a c (record self { initialized = flag }) _ e refl
          (put-Framed o m self.pointer a b _ e refl),
    )

    -- The digest is written over the own number and reduced where it stands.
    reduced-Here :
        (digest : o.Bignum)
        → Both
            (Simulates o m self.pointer)
            (finish do
              a ← deref self.pointer
              h ←
                  called_or_return
                    (nnmod o ((put o m a digest).cells a) o.curve_order none)
                    (put o m a digest, record self { initialized = false })
              next (put o (put o m a digest) a h, record self { initialized = true }))
            (finish do
              target ← deref (mapped m.cells self.pointer)
              h ←
                  called_or_return
                    (nnmod o digest o.curve_order none)
                    (record { number = some digest; initialized = false })
              next (record { number = some h; initialized = true }))
    reduced-Here digest = deref-Both (Simulates o m self.pointer) m.cells self.pointer _ _ (λ a e.
        called_or_return_same-Both (Simulates o m self.pointer) _
          (nnmod o digest o.curve_order none) _ _ _ _
          (ap (λ x. nnmod o x o.curve_order none) (put-same o m a digest))
          (written-Here a digest false e) (λ h. rewritten-Here a digest h true e))

    pub hash_set_at-set :
        (point : CommitPoint o)
        → Both
            (Simulates o m self.pointer)
            (hash_set_at o m self point)
            (CommitPointHash.set o (view o m self) point)
    unfolding hash_set_at CommitPointHash.set
    hash_set_at-set point =
        let S = Simulates o m self.pointer in
        return_if-Both S (not point.initialized) _ _ _ _ unchanged-Here (
          call-Both S (Sha2.new o 256) _ _ (λ sha2. deref_same-Both S point.point _ _ (λ p.
            octets-Both S p _ _ _ _ cleared-Here (λ octets.
              let tagged = Sha2.update o sha2 (second_domain_separated_hash_function_byte ∷ []) in
              let hashed = Sha2.update o tagged octets in
              or_return-Both S (o.bn_bin2bn (Sha2.finalize o hashed).0) _ _ _ _ cleared-Here
                reduced-Here))))

    pub challenge_set_at-set :
        (commit : CommitPoint o) (key : PubKey o) (message : List ℕ) (offset size : ℕ)
        → Both
            (Simulates o m self.pointer)
            (challenge_set_at o m self commit key message offset size)
            (Challenge.set o (view o m self) commit key message offset size)
    unfolding challenge_set_at Challenge.set
    challenge_set_at-set commit key message offset size =
        let S = Simulates o m self.pointer in
        return_if-Both S (not commit.initialized) _ _ _ _ unchanged-Here (
          return_if-Both S (length message == 0) _ _ _ _ unchanged-Here (
            return_if-Both S (ltb (length message) (add32 offset size)) _ _ _ _ unchanged-Here (
              call-Both S (Sha2.new o 256) _ _ (λ sha2. deref_same-Both S commit.point _ _ (λ p.
                octets-Both S p _ _ _ _ cleared-Here (λ first.
                  octets-Both S key.p _ _ _ _ cleared-Here (λ second.
                    let tagged =
                      Sha2.update o sha2 (third_domain_separated_hash_function_byte ∷ []) in
                    let keyed = Sha2.update o (Sha2.update o tagged first) second in
                    call-Both S (Sha2.update_range o keyed message offset size) _ _ (λ hashed.
                      or_return-Both S (o.bn_bin2bn (Sha2.finalize o hashed).0) _ _ _ _ cleared-Here
                        reduced-Here))))))))

    -- The secret that is read behind the first write is another object's, so the product has not
    -- changed it.
    pub response_set_at-set :
        (secret challenge : Handle) (d : PrivKey o)
        → Apart o secret self
        → Both
            (Simulates o m self.pointer)
            (response_set_at o m self secret challenge d)
            (Response.set o (view o m self) (view o m secret) (view o m challenge) d)
    unfolding response_set_at Response.set
    response_set_at-set secret challenge d apart =
        let S = Simulates o m self.pointer in
        return_if-Both S self.initialized _ _ _ _ unchanged-Here (
          return_if-Both S (not secret.initialized) _ _ _ _ unchanged-Here (
            return_if-Both S (not challenge.initialized) _ _ _ _ unchanged-Here (
              or_throw-Both S o.bn_ctx_new bad_alloc _ _ (λ ctx.
                deref-Both S m.cells self.pointer _ _ (λ a e.
                  deref-Both S m.cells challenge.pointer _ _ (λ b _.
                    or_return-Both S (o.bn_mod_mul (m.cells b) d.d o.curve_order) _ _ _ _
                      cleared-Here
                      (λ product. deref-Both S m.cells secret.pointer _ _ (λ c f.
                        or_return_same-Both S _ (o.bn_mod_sub (m.cells c) product o.curve_order) _ _
                          _ _
                          (ap₂ (λ x y. o.bn_mod_sub x y o.curve_order)
                            (put-other o m a c product (λ q. apart c f (e ∙ ap some (sym q))))
                            (put-same o m a product))
                          (written-Here a product false e)
                          (λ s. rewritten-Here a product s true e)))))))))
