-- ===== src/BignumSerialize/Frame.antt =====
-- src/libSchnorr/src/BIGNUMSerialize.cpp: what stands in front of the place that `SetNumber` writes.
use schnorr.Common.{
  ℕ, ◌+◌, ◌-◌, ◌^◌, ◌≤◌, ◌<◌, ◌≡◌, sym, ap, ◌∙◌, List, ◌++◌, false, ltb, length, take, drop,
  replicate, slice, write, length-append, length-take, length-replicate, arith, Bool-cases, inl,
  inr, le→ltb,
}
use schnorr.OpenSsl.{OpenSsl}
use schnorr.OpenSsl.Laws.{Documented, NeverFails}
use schnorr.BignumSerialize.{get_number, set_number, put_padded, resized}
use schnorr.BignumSerialize.RoundTrip.{
  take-write, take-take_le, take-grow, take-drop, resized-long, no_wrap, put_padded-long,
  set_number-put_padded,
}

module _ {ℓ} {A : Type ℓ} where
  pub length-write-le :
      (xs ys : List A) (m : ℕ) → m ≤ length xs → m + length ys ≤ length (write xs m ys)
  length-write-le xs ys m h = omega (
    arith,
    length-append (take m xs) (ys ++ drop (m + length ys) xs),
    length-append ys (drop (m + length ys) xs),
    length-take m xs,
  )

module _ (o : OpenSsl) (doc : Documented o) (runs : NeverFails o doc.group doc.numbers) where
  take-put_padded :
      (dst : List ℕ) (offset size : ℕ) (v : o.Bignum)
      → offset ≤ length dst
      → take offset (put_padded o dst offset size v) ≡ take offset dst
  unfolding put_padded
  take-put_padded dst offset size v long =
      let d = size - o.bn_num_bytes v in
      let zeros : List ℕ = replicate d 0 in
      let padded : List ℕ = write dst offset zeros in
      let first : offset + d ≤ length padded =
        omega (arith, length-write-le dst zeros offset long, length-replicate {A = ℕ} d 0) in
      sym
        (take-take_le offset (offset + d) (write padded (offset + d) (o.bn_bn2bin v)) (omega arith))
      ∙ ap (take offset) (take-write padded (o.bn_bn2bin v) (offset + d) first)
      ∙ take-take_le offset (offset + d) padded (omega arith)
      ∙ take-write dst zeros offset long

  take-resized : (dst : List ℕ) (m n : ℕ) → m ≤ length dst → take m (resized o dst n) ≡ take m dst
  take-resized dst m n h = elim (Bool-cases (ltb (length dst) n)) [
    | inl e ↦ rw e (take-grow 0 dst m n h)
    | inr e ↦ rw e
  ]

  -- What `SetNumber` writes behind a place leaves what `GetNumber` reads from that place as it is, where
  -- the vector reaches to the start of what is written, the number fits its size, its end an
  -- `unsigned int`, and the size is below 2^31.
  pub get_number-set_number_behind :
      (dst : List ℕ) (at size offset size' : ℕ) (v : o.Bignum)
      → at + size ≤ offset
      → offset ≤ length dst
      → offset + size' < 2 ^ 32
      → size' < 2 ^ 31
      → o.bn_num_bytes v ≤ size'
      → get_number o (set_number o dst offset size' v) at size ≡ get_number o dst at size
  unfolding get_number
  get_number-set_number_behind dst at size offset size' v behind long small short fits =
      let target = resized o dst (offset + size') in
      let target_long = resized-long o doc runs dst (offset + size') in
      let written = put_padded o target offset size' v in
      let kept : take offset written ≡ take offset dst =
        take-put_padded target offset size' v (omega arith)
        ∙ take-resized dst offset (offset + size') long in
      let part : take (at + size) written ≡ take (at + size) dst =
        sym (take-take_le (at + size) offset written behind)
        ∙ ap (take (at + size)) kept
        ∙ take-take_le (at + size) offset dst behind in
      let same : slice written at size ≡ slice dst at size =
        take-drop at size written ∙ ap (drop at) part ∙ sym (take-drop at size dst) in
      let overflow : ltb (at + size) size ≡ false = le→ltb _ _ (omega arith) in
      let enough : ltb (length written) (at + size) ≡ false =
        le→ltb _ _
          (omega (arith, put_padded-long o doc runs target offset size' v target_long fits)) in
      let before : ltb (length dst) (at + size) ≡ false = le→ltb _ _ (omega arith) in
      rw (
        set_number-put_padded o doc runs dst offset size' v small short fits,
        no_wrap o doc runs at size (omega arith),
        overflow,
        enough,
        before,
        same,
      )
