-- ===== src/BignumSerialize/RoundTrip.antt =====
-- src/libSchnorr/src/BIGNUMSerialize.cpp: `GetNumber` behind `SetNumber`.
use schnorr.Common.{
  ℕ, zero, suc, ◌+◌, ◌-◌, ◌^◌, ◌≤◌, ◌<◌, ◌≡◌, refl, sym, ap, ap, ◌∙◌, List, [], ◌∷◌, ◌++◌,
  append_assoc, true, false, some, ◌&&◌, ltb, leb, add32, length, take, drop, replicate, slice,
  write, grow, length-append, length-take, length-replicate, take-append_at, drop-append_at, arith,
  Bool-cases, inl, inr, le→ltb, ltb→le,
}
use schnorr.Common.Bytes.{be-zeros}
use schnorr.OpenSsl.{OpenSsl}
use schnorr.OpenSsl.Laws.{Documented, NeverFails}
use schnorr.BignumSerialize.{get_number, set_number, put_padded, resized}

module _ {ℓ} {A : Type ℓ} where
  slice-append :
      (xs ys zs : List A) (m n : ℕ)
      → length xs ≡ m
      → length ys ≡ n
      → slice (xs ++ (ys ++ zs)) m n ≡ ys
  slice-append xs ys zs m n m_eq n_eq =
      ap (take n) (drop-append_at xs (ys ++ zs) m m_eq) ∙ take-append_at ys zs n n_eq

  pub take-write : (xs ys : List A) (m : ℕ) → m ≤ length xs → take m (write xs m ys) ≡ take m xs
  take-write xs ys m h = take-append_at (take m xs) _ m (omega (arith, length-take m xs))

  pub take-take_le : (m n : ℕ) (xs : List A) → m ≤ n → take m (take n xs) ≡ take m xs
  take-take_le zero n xs h = refl
  take-take_le (suc m) zero xs h = absurd (omega arith)
  take-take_le (suc m) (suc n) [] h = refl
  take-take_le (suc m) (suc n) (x ∷ xs) h = ap (◌∷◌ x) (take-take_le m n xs (omega arith))

  pub take-drop : (m n : ℕ) (xs : List A) → take n (drop m xs) ≡ drop m (take (m + n) xs)
  take-drop zero n xs = let e : 0 + n ≡ n = omega arith in rw e
  take-drop (suc m) zero [] = let e : suc m + 0 ≡ suc m = omega arith in rw e
  take-drop (suc m) (suc n) [] = let e : suc m + suc n ≡ suc (m + suc n) = omega arith in rw e
  take-drop (suc m) n (x ∷ xs) =
      let e : suc m + n ≡ suc (m + n) = omega arith in rw e (take-drop m n xs)

  pub take-grow : (a : A) (xs : List A) (m n : ℕ) → m ≤ length xs → take m (grow a xs n) ≡ take m xs
  take-grow a xs zero n h = refl
  take-grow a [] (suc m) n h = absurd (omega arith)
  take-grow a (x ∷ xs) (suc m) n h =
      ap (◌∷◌ x) (take-append m xs (replicate (n - suc (length xs)) a) (omega arith))
    where
      take-append : (m : ℕ) (xs ys : List A) → m ≤ length xs → take m (xs ++ ys) ≡ take m xs
      take-append zero xs ys h = refl
      take-append (suc m) [] ys h = absurd (omega arith)
      take-append (suc m) (x ∷ xs) ys h = ap (◌∷◌ x) (take-append m xs ys (omega arith))

  -- Two writes, one behind the other.
  writes_slice :
      (xs ys zs : List A) (m : ℕ)
      → m ≤ length xs
      → slice (write (write xs m ys) (m + length ys) zs) m (length ys + length zs) ≡ ys ++ zs
  writes_slice xs ys zs m h =
      let first = write xs m ys in
      let len : length (take m xs) ≡ m = omega (arith, length-take m xs) in
      let rest = drop (m + length ys + length zs) first in
      let front : take (m + length ys) first ≡ take m xs ++ ys =
        ap (take (m + length ys)) (sym (append_assoc (take m xs) ys _))
        ∙ take-append_at (take m xs ++ ys) _ (m + length ys)
            (omega (arith, length-append (take m xs) ys)) in
      let shape : write first (m + length ys) zs ≡ take m xs ++ ((ys ++ zs) ++ rest) =
        ap (λ t. t ++ (zs ++ rest)) front
        ∙ append_assoc (take m xs) ys (zs ++ rest)
        ∙ ap (λ t. take m xs ++ t) (sym (append_assoc ys zs rest)) in
      ap (λ t. slice t m (length ys + length zs)) shape
      ∙ slice-append (take m xs) (ys ++ zs) rest m (length ys + length zs) len (length-append ys zs)

module _ (o : OpenSsl) (doc : Documented o) (runs : NeverFails o doc.group doc.numbers) where
  open doc use {numbers}

  pub resized-long : (dst : List ℕ) (n : ℕ) → n ≤ length (resized o dst n)
  resized-long dst n = elim (Bool-cases (ltb (length dst) n)) [
    | inl e ↦
        rw
          (
            e,
            length-append dst (replicate (n - length dst) 0),
            length-replicate {A = ℕ} (n - length dst) 0,
          )
          (omega arith)
    | inr e ↦ rw e (ltb→le _ _ e)
  ]

  pub put_padded-slice :
      (dst : List ℕ) (offset size : ℕ) (v : o.Bignum)
      → offset + size ≤ length dst
      → o.bn_num_bytes v ≤ size
      → slice (put_padded o dst offset size v) offset size
        ≡ replicate (size - o.bn_num_bytes v) 0 ++ o.bn_bn2bin v
  unfolding put_padded
  put_padded-slice dst offset size v long fits =
      let d = size - o.bn_num_bytes v in
      let zeros : List ℕ = replicate d 0 in
      let len : length zeros ≡ d = length-replicate d 0 in
      let whole : length zeros + length (o.bn_bn2bin v) ≡ size =
        omega (arith, len, numbers.length-bn2bin v) in
      ap (λ e. slice (write (write dst offset zeros) (offset + e) (o.bn_bn2bin v)) offset size)
        (sym len)
      ∙ ap (slice (write (write dst offset zeros) (offset + length zeros) (o.bn_bn2bin v)) offset)
          (sym whole)
      ∙ writes_slice dst zeros (o.bn_bn2bin v) offset (omega arith)

  pub no_wrap : (offset size : ℕ) → offset + size < 2 ^ 32 → add32 offset size ≡ offset + size
  no_wrap offset size h = omega arith

  -- What `SetNumber` does where its checks pass.
  pub set_number-put_padded :
      (dst : List ℕ) (offset size : ℕ) (v : o.Bignum)
      → offset + size < 2 ^ 32
      → size < 2 ^ 31
      → o.bn_num_bytes v ≤ size
      → set_number o dst offset size v ≡ put_padded o (resized o dst (offset + size)) offset size v
  unfolding set_number
  set_number-put_padded dst offset size v small short fits =
      let overflow : ltb (offset + size) size ≡ false = le→ltb _ _ (omega arith) in
      let fit : (leb (o.bn_num_bytes v) size && ltb size (2 ^ 31)) ≡ true = ground arith in
      rw (no_wrap offset size small, overflow, fit)

  pub put_padded-long :
      (dst : List ℕ) (offset size : ℕ) (v : o.Bignum)
      → offset + size ≤ length dst
      → o.bn_num_bytes v ≤ size
      → offset + size ≤ length (put_padded o dst offset size v)
  unfolding put_padded
  put_padded-long dst offset size v long fits =
      let d = size - o.bn_num_bytes v in
      let padded : List ℕ = write dst offset (replicate d 0) in
      let first : offset + d ≤ length padded = omega (
        arith,
        length-append (take offset dst)
            (replicate d 0 ++ drop (offset + length {A = ℕ} (replicate d 0)) dst),
        length-append (replicate d 0) (drop (offset + length {A = ℕ} (replicate d 0)) dst),
        length-take offset dst,
        length-replicate {A = ℕ} d 0,
      ) in
      omega (
        arith,
        length-append (take (offset + d) padded)
            (o.bn_bn2bin v ++ drop (offset + d + length (o.bn_bn2bin v)) padded),
        length-append (o.bn_bn2bin v) (drop (offset + d + length (o.bn_bn2bin v)) padded),
        length-take (offset + d) padded,
        numbers.length-bn2bin v,
      )

  -- A number that fits the size, written with `SetNumber`, is read by `GetNumber` from the same place: the
  -- number read has the same absolute value and is not negative, where the end of the place fits
  -- an `unsigned int`, the size is below 2^31 and no call of OpenSSL fails.
  pub get_number-set_number :
      (dst : List ℕ) (offset size : ℕ) (v : o.Bignum)
      → offset + size < 2 ^ 32
      → size < 2 ^ 31
      → o.bn_num_bytes v ≤ size
      → (a : o.Bignum) × (get_number o (set_number o dst offset size v) offset size ≡ some a)
        × (numbers.value a ≡ numbers.value v)
        × (o.bn_is_negative a ≡ false)
  unfolding get_number
  get_number-set_number dst offset size v small short fits =
      let target = resized o dst (offset + size) in
      let long = resized-long dst (offset + size) in
      let zeros : List ℕ = replicate (size - o.bn_num_bytes v) 0 in
      let (a, read) = runs.bin2bn (zeros ++ o.bn_bn2bin v) in
      let (value, nonneg) = numbers.bin2bn_lem _ a read in
      let overflow : ltb (offset + size) size ≡ false = le→ltb _ _ (omega arith) in
      let enough : ltb (length (put_padded o target offset size v)) (offset + size) ≡ false =
        le→ltb _ _ (put_padded-long target offset size v long fits) in
      (
        a,
        rw
            (
              set_number-put_padded dst offset size v small short fits,
              no_wrap offset size small,
              overflow,
              enough,
              put_padded-slice target offset size v long fits,
            )
            read,
        value ∙ be-zeros (size - o.bn_num_bytes v) (o.bn_bn2bin v) ∙ numbers.be-bn2bin v,
        nonneg,
      )
