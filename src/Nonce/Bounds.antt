-- ===== src/Nonce/Bounds.antt =====
-- src/libSchnorr/src/generate_dsa_nonce.c: how `BN_generate_dsa_nonce` ends, and the numbers that it gives.
use schnorr.Common.{
  le→ltb, ◌-◌, ◌++◌, replicate, ◌^◌, ℕ, suc, ◌+◌, ◌^◌, ◌<◌, ◌≤◌, ◌≡◌, refl, sym, ap, ◌∙◌, List, [],
  Bool, true, false, Option, none, some, inl, inr, arith, not, ltb, add32, length,
}
use schnorr.Run.{
  next-step, next, return_if-step, or_return-step, ◌>>◌, Run, returns, finish, ◌>>=◌, return_if,
  or_return, returns-injective, or_return-returns, return_if-returns,
}
use schnorr.OpenSsl.{OpenSsl}
use schnorr.OpenSsl.Laws.{NeverFails, Sha512Laws, Documented}
use schnorr.Nonce.{stop, Drawn, generate_dsa_nonce}
use schnorr.Nonce.Bytes.{fill_bytes_fails_not, Filled, fill_bytes-Filled}
use native.Mathlib.Nat.{mod-lt}
use mathlib.Core.Option.{some-injective}
use schnorr.Common.{subst}

module _ (o : OpenSsl) where
  refused : (k : o.Bignum) (v w : o.World) → ¬ (◌≡◌ {A = Drawn o} (none, v) (some k, w))
  refused k v w e = cc (ap (λ (x : Drawn o). x.0) e)

  Filled-returns :
      (sha : Sha512Laws o) (num : ℕ) (run : Run (Drawn o) (List ℕ × o.World))
      (f : List ℕ × o.World → Run (Drawn o) (Drawn o)) (k : o.Bignum) (w : o.World)
      → Filled o sha num run
      → finish (run >>= f) ≡ returns (some k, w)
      → (bs : List ℕ) × (v : o.World) × (finish (f (bs, v)) ≡ returns (some k, w))
  Filled-returns sha num run f k w (inl (v, e)) h =
      absurd (refused k v w (returns-injective (ap (λ r. finish (r >>= f)) (sym e) ∙ h)))
  Filled-returns sha num run f k w (inr (bs, v, e, _)) h =
      (bs, v, ap (λ r. finish (r >>= f)) (sym e) ∙ h)

  Filled-step :
      (sha : Sha512Laws o) (num : ℕ) (run : Run (Drawn o) (List ℕ × o.World))
      (f : List ℕ × o.World → Run (Drawn o) (Drawn o))
      → Filled o sha num run
      → ((bs : List ℕ) (v : o.World)
          → length bs ≡ num
          → (x : Drawn o) × (finish (f (bs, v)) ≡ returns x))
      → (x : Drawn o) × (finish (run >>= f) ≡ returns x)
  Filled-step sha num run f (inl (v, e)) h = ((none, v), ap (λ r. finish (r >>= f)) e)
  Filled-step sha num run f (inr (bs, v, e, len)) h =
      let (x, done) = h bs v len in (x, ap (λ r. finish (r >>= f)) e ∙ done)

  or_return-ends :
      {A : Type 0} (a : Option A) (r : Drawn o) (f : A → Run (Drawn o) (Drawn o))
      → ((y : A) → (x : Drawn o) × (finish (f y) ≡ returns x))
      → (x : Drawn o) × (finish (or_return a r >>= f) ≡ returns x)
  or_return-ends none r f h = (r, refl)
  or_return-ends (some y) r f h = h y

  return_if-ends :
      (b : Bool) (r : Drawn o) (k : Run (Drawn o) (Drawn o))
      → ((x : Drawn o) × (finish k ≡ returns x))
      → (x : Drawn o) × (finish (return_if b r >> k) ≡ returns x)
  return_if-ends true r k h = (r, refl)
  return_if-ends false r k h = h

  module _ (sha : Sha512Laws o) where
    -- `BN_generate_dsa_nonce` ends for every library whose SHA-512 digests have 64 bytes, whichever calls
    -- fail: its fuel is enough where the bytes that it fills, eight more than the range has, are
    -- counted by an `unsigned int`.
    pub generate_dsa_nonce_ends :
        (range priv : o.Bignum) (message : List ℕ) (ctx : o.BnCtx) (w : o.World)
        → o.bn_num_bytes range + 8 < 2 ^ 32
        → (x : Drawn o) × (generate_dsa_nonce o range priv message ctx w ≡ returns x)
    unfolding generate_dsa_nonce
    generate_dsa_nonce_ends range priv message ctx w small =
        let num = add32 (o.bn_num_bytes range) 8 in
        return_if-ends (not (o.openssl_malloc num)) _ _ (
          return_if-ends (ltb 96 (length (o.bn_words priv))) _ _ (
            Filled-step sha num _ _
              (fill_bytes-Filled o sha (suc num) num 0 [] _ message w refl (omega arith)
                (omega arith) (omega arith))
              (λ bs v len.
                or_return-ends (o.bn_bin2bn bs) _ _
                  (λ a. or_return-ends (o.bn_mod a range ctx) _ _ (λ k. (_, refl))))))

  module _ (doc : Documented o) where
    open doc use {numbers, nonce_hash}

    -- A number below the order that is not negative.
    abbrev pub IsNonce : o.Bignum → Type 0
    IsNonce k = (o.bn_is_negative k ≡ false) × (numbers.value k < numbers.order)

    -- The order has at most 32 bytes, or is 256^32 and has 33.
    num_bytes-order : o.bn_num_bytes o.curve_order ≤ 33
    num_bytes-order =
        numbers.num_bytes-le o.curve_order 33
          (rw numbers.value-curve_order (omega (arith, numbers.order-le)))

    module _ (priv : o.Bignum) (message : List ℕ) (ctx : o.BnCtx) (w : o.World) where
      reduced-IsNonce :
          (bs : List ℕ) (a k : o.Bignum)
          → o.bn_bin2bn bs ≡ some a
          → o.bn_mod a o.curve_order ctx ≡ some k
          → IsNonce k
      reduced-IsNonce bs a k read reduced =
          let (_, a_nonneg) = numbers.bin2bn_lem bs a read in
          let (value, nonneg) = numbers.mod_lem a k ctx a_nonneg reduced in
          (nonneg, rw value (mod-lt _ (omega (arith, numbers.one_lt_order))))

      -- A nonce that `BN_generate_dsa_nonce` gives for the order of the curve is below the order and not
      -- negative. No call is supposed to succeed.
      pub generate_dsa_nonce-IsNonce :
          (k : o.Bignum) (w' : o.World)
          → generate_dsa_nonce o o.curve_order priv message ctx w ≡ returns (some k, w')
          → IsNonce k
      unfolding generate_dsa_nonce
      generate_dsa_nonce-IsNonce k w' h =
          let num = add32 (o.bn_num_bytes o.curve_order) 8 in
          let x : Drawn o = (some k, w') in
          let ne = refused k w w' in
          let (_, h1) = return_if-returns (not (o.openssl_malloc num)) (none, w) _ x ne h in
          let (_, h2) = return_if-returns (ltb 96 (length (o.bn_words priv))) (none, w) _ x ne h1 in
          let filled =
            fill_bytes-Filled o nonce_hash (suc num) num 0 [] _ message w refl (omega arith)
              (omega arith) (omega arith) in
          let (bs, v, h3) = Filled-returns nonce_hash num _ _ k w' filled h2 in
          let (a, read, h4) =
            or_return-returns (o.bn_bin2bn bs) (none, v) _ x (refused k v w') h3 in
          let (b, reduced, h5) =
            or_return-returns (o.bn_mod a o.curve_order ctx) (none, v) _ x (refused k v w') h4 in
          let same = some-injective b k (ap (λ (x : Drawn o). x.0) (returns-injective h5)) in
          subst IsNonce same (reduced-IsNonce bs a b read reduced)

      module _ (runs : NeverFails o doc.group doc.numbers) where
        Filled-next :
            (run : Run (Drawn o) (List ℕ × o.World)) (num : ℕ)
            → Filled o nonce_hash num run
            → ((v : o.World) → ¬ (run ≡ stop (returns (none, v))))
            → (bs : List ℕ) × (v : o.World) × (run ≡ next (bs, v))
        Filled-next run num (inl (v, e)) h = absurd (h v e)
        Filled-next run num (inr (bs, v, e, _)) h = (bs, v, e)

        -- For a private key of at most 32 bytes, and where no call of OpenSSL fails,
        -- `BN_generate_dsa_nonce` gives a nonce for the order of the curve, which is below it and not
        -- negative.
        pub generate_dsa_nonce-returns :
            numbers.value priv < 256 ^ 32
            → (k : o.Bignum) × (w' : o.World) × (generate_dsa_nonce o o.curve_order priv message ctx
                  w
                ≡ returns (some k, w'))
              × IsNonce k
        unfolding generate_dsa_nonce
        generate_dsa_nonce-returns small =
            let num = add32 (o.bn_num_bytes o.curve_order) 8 in
            let words = o.bn_words priv in
            let pb = words ++ replicate (96 - length words) 0 in
            let fits : ltb 96 (length words) ≡ false =
              le→ltb _ _
                (omega (arith, numbers.length-words priv, numbers.num_bytes-le priv 32 small)) in
            let memory : not (o.openssl_malloc num) ≡ false = ap not (runs.malloc num) in
            let filled =
              fill_bytes-Filled o nonce_hash (suc num) num 0 [] pb message w refl (omega arith)
                (omega arith) (omega arith) in
            let (bs, v, e) =
              Filled-next _ num filled
                (λ v. fill_bytes_fails_not o runs.random (suc num) num 0 [] pb message w v) in
            let (a, read) = runs.bin2bn bs in
            let (k, reduced) = runs.modulo a ctx in
            (
              k,
              v,
              return_if-step (not (o.openssl_malloc num)) _ _ memory (
                  return_if-step (ltb 96 (length words)) _ _ fits (
                    next-step _ _ e (
                      or_return-step (o.bn_bin2bn bs) _ _ read
                        (or_return-step (o.bn_mod a o.curve_order ctx) _ _ reduced refl)))),
              reduced-IsNonce bs a k read reduced,
            )
