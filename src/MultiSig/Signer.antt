-- ===== src/MultiSig/Signer.antt =====
-- src/libSchnorr/src/Schnorr_PubKey.cpp, MultiSig_CommitPoint.cpp and MultiSig_Response.cpp: what one signer
-- computes from a key, a secret and the challenge.
use schnorr.Common.{
  ◌+◌, ◌-◌, ◌*◌, ◌%◌, ◌≡◌, refl, sym, ap, ◌∙◌, true, false, none, some, not, ◌||◌, arith,
}
use schnorr.Common.{if◌then◌else◌}
use schnorr.Run.{
  Outcome, bad_alloc, next, returns-injective, returns, finish, return_if-step, or_throw-step,
  or_return-step, deref-step, call-step,
}
use schnorr.OpenSsl.{OpenSsl}
use schnorr.OpenSsl.Laws.{Documented, NeverFails, times}
use schnorr.Keys.{PrivKey, PubKey, pub_key_of, is_lt, kept}
use schnorr.MultiSig.CommitSecret.{CommitSecret}
use schnorr.MultiSig.CommitPoint
use schnorr.MultiSig.CommitPoint.{CommitPoint}
use schnorr.MultiSig.Challenge.{Challenge}
use schnorr.MultiSig.Response
use schnorr.MultiSig.Response.{Response}
use schnorr.MultiSig.Objects.{NumberObject, number_new}
use schnorr.MultiSig.Sums.{element_of}
use schnorr.Verify.Accepts.{InRange}

module _ (o : OpenSsl) (doc : Documented o) (runs : NeverFails o doc.group doc.numbers) where
  open doc use {group, numbers, curve}

  -- An initialized object that holds the number `n`.
  abbrev pub HoldsNumber : NumberObject o → o.Bignum → Type 0
  HoldsNumber x n = (x.initialized ≡ true) × (x.number ≡ some n) × (o.bn_is_negative n ≡ false)

  InRange-test :
      (x : o.Bignum)
      → InRange o doc x
      → (o.bn_is_zero x || not (is_lt (o.bn_cmp x o.curve_order))) ≡ false
  InRange-test x r =
      let cmp = numbers.cmp_lem x o.curve_order r.nonneg numbers.curve_order_nonneg in
      ground (arith, cmp, numbers.value-curve_order, numbers.is_zero_lem x, r.pos, r.lt)

  made_lem :
      (d : PrivKey o) (p q : o.Point)
      → InRange o doc d.d
      → o.ec_point_mul d.d none ≡ some q
      → ◌≡◌ {A = Outcome (PubKey o)}
          (finish (
            if o.bn_is_zero d.d || not (is_lt (o.bn_cmp d.d o.curve_order))
            then next (record { p = p })
            else next (record { p = kept (o.ec_point_mul d.d none) p })))
          (returns (record { p = q }))
  made_lem d p q range mul =
      let valid : (o.bn_is_zero d.d || not (is_lt (o.bn_cmp d.d o.curve_order))) ≡ false =
        InRange-test d.d range in
      rw (valid, mul)

  -- Where `PubKey(privkey)` is made of a private key in [1, …, order - 1], its element is the multiple of
  -- the generator by that key, where no call of OpenSSL fails.
  pub pub_key_of-element :
      (d : PrivKey o) (key : PubKey o)
      → InRange o doc d.d
      → pub_key_of o d ≡ returns key
      → curve.element key.p ≡ times group (numbers.value d.d) group.generator
  unfolding pub_key_of
  pub_key_of-element d key range h =
      let (p, new) = runs.point_new in
      let (q, mul) = runs.mul_generator d.d in
      let computed = or_throw-step o.ec_point_new bad_alloc _ new (made_lem d p q range mul) in
      let same = returns-injective (sym computed ∙ h) in
      rw (← same) (curve.mul_generator d.d q range.nonneg mul)

  pub pub_key_of-returns :
      (d : PrivKey o) → InRange o doc d.d → (key : PubKey o) × (pub_key_of o d ≡ returns key)
  unfolding pub_key_of
  pub_key_of-returns d range =
      let (p, new) = runs.point_new in
      let (q, mul) = runs.mul_generator d.d in
      (record { p = q }, or_throw-step o.ec_point_new bad_alloc _ new (made_lem d p q range mul))

  commit_set_lem :
      (self : CommitPoint o) (secret : CommitSecret o) (p q : o.Point) (n : o.Bignum)
      → self.point ≡ some p
      → secret.initialized ≡ true
      → secret.number ≡ some n
      → o.ec_point_mul n none ≡ some q
      → CommitPoint.set o self secret ≡ returns (record { point = some q; initialized = true })
  unfolding CommitPoint.set
  commit_set_lem self secret p q n own init held mul =
      return_if-step (not secret.initialized) self _ (ap not init)
        (deref-step self.point _ own (deref-step secret.number _ held (rw mul)))

  pub of_secret-returns :
      (secret : CommitSecret o) (n : o.Bignum)
      → HoldsNumber secret n
      → (q : o.Point) × (CommitPoint.of_secret o secret
          ≡ returns (record { point = some q; initialized = true }))
  unfolding CommitPoint.of_secret CommitPoint.new CommitPoint.set
  of_secret-returns secret n (init, held, nonneg) =
      let (p, new) = runs.point_new in
      let (q, mul) = runs.mul_generator n in
      let start : CommitPoint o = record { point = some p; initialized = false } in
      (
        q,
        call-step (CommitPoint.new o) _ (or_throw-step o.ec_point_new bad_alloc _ new refl)
            (rw (commit_set_lem start secret p q n refl init held mul)),
      )

  -- Where `CommitPoint(secret)` is made of an initialized secret that holds a number that is not
  -- negative, it is initialized and its element is the multiple of the generator by that number,
  -- where no call of OpenSSL fails.
  pub of_secret-element :
      (secret : CommitSecret o) (n : o.Bignum) (commit : CommitPoint o)
      → HoldsNumber secret n
      → CommitPoint.of_secret o secret ≡ returns commit
      → (element_of o doc commit ≡ times group (numbers.value n) group.generator)
        × (commit.initialized ≡ true)
  unfolding CommitPoint.of_secret CommitPoint.new CommitPoint.set
  of_secret-element secret n commit (init, held, nonneg) h =
      let (p, new) = runs.point_new in
      let (q, mul) = runs.mul_generator n in
      let start : CommitPoint o = record { point = some p; initialized = false } in
      let new_eq : CommitPoint.new o ≡ returns start =
        or_throw-step o.ec_point_new bad_alloc _ new refl in
      let done : CommitPoint o = record { point = some q; initialized = true } in
      let set_eq : CommitPoint.set o start secret ≡ returns done =
        commit_set_lem start secret p q n refl init held mul in
      let computed : CommitPoint.of_secret o secret ≡ returns done =
        call-step (CommitPoint.new o) _ new_eq (rw set_eq) in
      let same = returns-injective (sym computed ∙ h) in
      rw (← same) (curve.mul_generator n q nonneg mul, refl)

  response_set_lem :
      (self : Response o) (secret : CommitSecret o) (challenge : Challenge o) (d : PrivKey o)
      (k c b x s : o.Bignum)
      → self.initialized ≡ false
      → self.number ≡ some b
      → secret.initialized ≡ true
      → secret.number ≡ some k
      → challenge.initialized ≡ true
      → challenge.number ≡ some c
      → o.bn_mod_mul c d.d o.curve_order ≡ some x
      → o.bn_mod_sub k x o.curve_order ≡ some s
      → Response.set o self secret challenge d
        ≡ returns (record { number = some s; initialized = true })
  unfolding Response.set
  response_set_lem self secret challenge d k c b x s fresh own k_init k_held c_init c_held mul sub =
      return_if-step self.initialized self _ fresh (
        return_if-step (not secret.initialized) self _ (ap not k_init) (
          return_if-step (not challenge.initialized) self _ (ap not c_init) (
            or_throw-step o.bn_ctx_new bad_alloc _ runs.bn_ctx_new.1 (
              deref-step self.number _ own (
                deref-step challenge.number _ c_held (
                  or_return-step (o.bn_mod_mul c d.d o.curve_order) _ _ mul (
                    deref-step secret.number _ k_held
                      (or_return-step (o.bn_mod_sub k x o.curve_order) _ _ sub refl))))))))

  -- `Response(secret, challenge, privkey)`, where the secret k and the challenge c are initialized, and
  -- they and the key d are not negative, and where no call of OpenSSL fails, returns an initialized
  -- response that holds k - c * d modulo the order, which is not negative.
  pub response_lem :
      (secret : CommitSecret o) (k : o.Bignum) (challenge : Challenge o) (c : o.Bignum)
      (d : PrivKey o)
      → HoldsNumber secret k
      → HoldsNumber challenge c
      → o.bn_is_negative d.d ≡ false
      → (s : o.Bignum) × (Response.of_secret o secret challenge d
          ≡ returns (record { number = some s; initialized = true }))
        × (numbers.value s
            ≡ (numbers.value k
                + (numbers.order
                    - (numbers.value c * numbers.value d.d) % numbers.order % numbers.order))
              % numbers.order)
        × (o.bn_is_negative s ≡ false)
  unfolding Response.of_secret Response.new Response.set
  response_lem secret k challenge c d (k_init, k_held, k_nonneg) (c_init, c_held, c_nonneg)
        d_nonneg =
      let (b, new_bn) = runs.bn_new in
      let (x, mul) = runs.mod_mul c d.d in
      let (s, sub) = runs.mod_sub k x in
      let (x_value, x_nonneg) = numbers.mod_mul_lem c d.d x c_nonneg d_nonneg mul in
      let (s_value, s_nonneg) = numbers.mod_sub_lem k x s k_nonneg x_nonneg sub in
      let start : Response o = record { number = some b; initialized = false } in
      let done : Response o = record { number = some s; initialized = true } in
      let new_eq : number_new o ≡ returns start = or_throw-step o.bn_new bad_alloc _ new_bn refl in
      let set_eq : Response.set o start secret challenge d ≡ returns done =
        response_set_lem start secret challenge d k c b x s refl refl k_init k_held c_init c_held
          mul sub in
      (
        s,
        call-step (number_new o) _ new_eq (rw set_eq),
        s_value
            ∙ ap (λ y. (numbers.value k + (numbers.order - y % numbers.order)) % numbers.order)
                x_value,
        s_nonneg,
      )
