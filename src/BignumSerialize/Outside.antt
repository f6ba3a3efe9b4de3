-- ===== src/BignumSerialize/Outside.antt =====
-- src/libSchnorr/src/BIGNUMSerialize.cpp: what stands in front of and behind the place that `SetNumber` writes.
use schnorr.Common.{
  ℕ, zero, suc, ◌+◌, ◌-◌, ◌^◌, ◌≤◌, ◌<◌, ◌≡◌, refl, sym, ap, ◌∙◌, List, [], ◌∷◌, ◌++◌, append_assoc,
  false, ◌&&◌, ltb, leb, add32, length, take, drop, replicate, write, grow, length-append,
  length-take, length-replicate, drop-append_at, arith, Bool-cases, inl, inr, ltb→le, ltb→lt,
}
use schnorr.OpenSsl.{OpenSsl}
use schnorr.OpenSsl.Laws.{BnLaws}
use schnorr.BignumSerialize.{set_number, put_padded, resized}
use schnorr.BignumSerialize.RoundTrip.{take-write, take-take_le, take-grow}
use schnorr.BignumSerialize.Frame.{length-write-le}

module _ {ℓ} {A : Type ℓ} where
  drop-drop : (m n : ℕ) (xs : List A) → drop (m + n) xs ≡ drop n (drop m xs)
  drop-drop zero n xs = let e : 0 + n ≡ n = omega arith in rw e
  drop-drop (suc m) zero [] = let e : suc m + 0 ≡ suc m = omega arith in rw e
  drop-drop (suc m) (suc n) [] = let e : suc m + suc n ≡ suc (m + suc n) = omega arith in rw e
  drop-drop (suc m) n (x ∷ xs) =
      let e : suc m + n ≡ suc (m + n) = omega arith in rw e (drop-drop m n xs)

  drop-long : (n : ℕ) (xs : List A) → length xs ≤ n → drop n xs ≡ []
  drop-long zero [] h = refl
  drop-long zero (x ∷ xs) h = absurd (omega arith)
  drop-long (suc n) [] h = refl
  drop-long (suc n) (x ∷ xs) h = drop-long n xs (omega arith)

  drop-write :
      (xs ys : List A) (i n : ℕ)
      → i ≤ length xs
      → i + length ys ≤ n
      → drop n (write xs i ys) ≡ drop n xs
  drop-write xs ys i n h le =
      let k = i + length ys in
      let d = n - k in
      let split : k + d ≡ n = omega arith in
      let front : length (take i xs ++ ys) ≡ k =
        omega (arith, length-append (take i xs) ys, length-take i xs) in
      ap (λ m. drop m (write xs i ys)) (sym split)
      ∙ drop-drop k d (write xs i ys)
      ∙ ap (λ zs. drop d (drop k zs)) (sym (append_assoc (take i xs) ys (drop k xs)))
      ∙ ap (drop d) (drop-append_at (take i xs ++ ys) (drop k xs) k front)
      ∙ sym (drop-drop k d xs)
      ∙ ap (λ m. drop m xs) split

  -- The two agree below `m` and from `n` on.
  abbrev pub Outside : ℕ → ℕ → List A → List A → Type ℓ
  Outside m n xs ys = (take m xs ≡ take m ys) × (drop n xs ≡ drop n ys)

  write-Outside :
      (xs ys : List A) (m i n : ℕ)
      → m ≤ i
      → i ≤ length xs
      → i + length ys ≤ n
      → Outside m n (write xs i ys) xs
  write-Outside xs ys m i n below long le = (
    sym (take-take_le m i (write xs i ys) below)
        ∙ ap (take m) (take-write xs ys i long)
        ∙ take-take_le m i xs below,
    drop-write xs ys i n long le,
  )

  pub Outside-trans :
      (m n : ℕ) (xs ys zs : List A) → Outside m n xs ys → Outside m n ys zs → Outside m n xs zs
  Outside-trans m n xs ys zs (p, q) (p', q') = (p ∙ p', q ∙ q')

module _ (o : OpenSsl) (numbers : BnLaws o) where
  put_padded-Outside :
      (dst : List ℕ) (m offset size n : ℕ) (v : o.Bignum)
      → m ≤ offset
      → offset ≤ length dst
      → offset + size ≤ n
      → o.bn_num_bytes v ≤ size
      → Outside m n (put_padded o dst offset size v) dst
  unfolding put_padded
  put_padded-Outside dst m offset size n v below long le fits =
      let d = size - o.bn_num_bytes v in
      let zeros : List ℕ = replicate d 0 in
      let padded : List ℕ = write dst offset zeros in
      let z = length-replicate {A = ℕ} d 0 in
      let len = numbers.length-bn2bin v in
      let long' = length-write-le dst zeros offset long in
      Outside-trans m n (write padded (offset + d) (o.bn_bn2bin v)) padded dst
        (write-Outside padded (o.bn_bn2bin v) m (offset + d) n (omega arith)
          (omega (arith, z, long')) (omega (arith, len, fits)))
        (write-Outside dst zeros m offset n below long (omega (arith, z)))

  resized-Outside :
      (dst : List ℕ) (m size n : ℕ)
      → m ≤ length dst
      → size ≤ n
      → (Outside m n (resized o dst size) dst) × (size ≤ length (resized o dst size))
  resized-Outside dst m size n low le = elim (Bool-cases (ltb (length dst) size)) [
    | inl e ↦
        let grown : length (grow 0 dst size) ≡ size = omega (
          arith,
          length-append dst (replicate (size - length dst) 0),
          length-replicate {A = ℕ} (size - length dst) 0,
          ltb→lt _ _ e,
        ) in
        rw e (
          (
            take-grow 0 dst m size low,
            drop-long n (grow 0 dst size) (omega (arith, grown))
                ∙ sym (drop-long n dst (omega (arith, ltb→lt _ _ e))),
          ),
          omega (arith, grown),
        )
    | inr e ↦ rw e ((refl, refl), ltb→le _ _ e)
  ]

  -- `SetNumber` keeps the part of the vector in front of its place and what stands behind it.
  pub set_number-Outside :
      (dst : List ℕ) (m offset size n : ℕ) (v : o.Bignum)
      → m ≤ offset
      → m ≤ length dst
      → offset + size ≤ n
      → offset + size < 2 ^ 32
      → Outside m n (set_number o dst offset size v) dst
  unfolding set_number
  set_number-Outside dst m offset size n v below low le small =
      let target = resized o dst (offset + size) in
      let (same, long) = resized-Outside dst m (offset + size) n low le in
      let end : add32 offset size ≡ offset + size = omega arith in
      elim (Bool-cases (leb (o.bn_num_bytes v) size && ltb size (2 ^ 31))) [
        | inl e ↦
            let written =
              put_padded-Outside target m offset size n v below (omega (arith, long)) le
                (ground (arith, e)) in
            let overflow : ltb (offset + size) size ≡ false = ground arith in
            rw (end, overflow, e)
              (Outside-trans m n (put_padded o target offset size v) target dst written same)
        | inr e ↦
            let overflow : ltb (offset + size) size ≡ false = ground arith in
            rw (end, overflow, e) (refl, refl)
      ]
