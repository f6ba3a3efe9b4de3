-- ===== src/BignumSerialize/Bounds.antt =====
-- src/libSchnorr/src/BIGNUMSerialize.cpp: the length of the vector that `SetNumber` leaves.
use schnorr.Common.{
  All, All-append, All-take, All-drop, All-replicate, replicate, take, drop, write, ◌-◌, ◌++◌, ap,
  Bool, if◌then◌else◌, ℕ, ◌+◌, ◌-◌, ◌^◌, ◌≤◌, ◌<◌, ◌≡◌, ◌∙◌, max, List, ◌++◌, true, false, ltb, leb,
  ◌&&◌, add32, length, take, drop, replicate, write, length-append, length-take, length-drop,
  length-replicate, le→ltb, ltb→le, ltb→lt, arith, Bool-cases, inl, inr,
}
use schnorr.OpenSsl.{OpenSsl}
use schnorr.OpenSsl.Laws.{BnLaws}
use schnorr.BignumSerialize.{set_number, put_padded, resized}

length-write :
    {A : Type 0} (xs ys : List A) (m : ℕ)
    → m + length ys ≤ length xs
    → length (write xs m ys) ≡ length xs
length-write xs ys m h = omega (
  arith,
  length-append (take m xs) (ys ++ drop (m + length ys) xs),
  length-append ys (drop (m + length ys) xs),
  length-take m xs,
  length-drop (m + length ys) xs,
)

abbrev pub IsByte : ℕ → Type 0
IsByte b = b < 256

-- The values of a `vector<uint8_t>`.
abbrev pub IsBytes : List ℕ → Type 0
IsBytes bs = All IsByte bs

write-IsBytes : (xs ys : List ℕ) (m : ℕ) → IsBytes xs → IsBytes ys → IsBytes (write xs m ys)
write-IsBytes xs ys m hx hy =
    All-append IsByte (take m xs) (ys ++ drop (m + length ys) xs) (All-take IsByte m xs hx)
      (All-append IsByte ys (drop (m + length ys) xs) hy (All-drop IsByte (m + length ys) xs hx))

module _ (o : OpenSsl) (numbers : BnLaws o) where
  length-put_padded :
      (dst : List ℕ) (offset size : ℕ) (v : o.Bignum)
      → offset + size ≤ length dst
      → o.bn_num_bytes v ≤ size
      → length (put_padded o dst offset size v) ≡ length dst
  unfolding put_padded
  length-put_padded dst offset size v long fits =
      let d = size - o.bn_num_bytes v in
      let zeros : List ℕ = replicate d 0 in
      let len : length zeros ≡ d = length-replicate d 0 in
      let first = length-write dst zeros offset (omega (arith, len)) in
      length-write (write dst offset zeros) (o.bn_bn2bin v) (offset + d)
        (omega (arith, first, numbers.length-bn2bin v))
      ∙ first

  resized-IsBytes : (dst : List ℕ) (n : ℕ) → IsBytes dst → IsBytes (resized o dst n)
  resized-IsBytes dst n h = elim (Bool-cases (ltb (length dst) n)) [
    | inl e ↦ rw e (
        All-append IsByte dst (replicate (n - length dst) 0) h
          (All-replicate IsByte (n - length dst) 0 (omega arith)))
    | inr e ↦ rw e h
  ]

  put_padded-IsBytes :
      (dst : List ℕ) (offset size : ℕ) (v : o.Bignum)
      → IsBytes dst
      → IsBytes (put_padded o dst offset size v)
  unfolding put_padded
  put_padded-IsBytes dst offset size v h =
      let d = size - o.bn_num_bytes v in
      let zeros = All-replicate IsByte d 0 (omega arith) in
      write-IsBytes (write dst offset (replicate d 0)) (o.bn_bn2bin v) (offset + d)
        (write-IsBytes dst (replicate d 0) offset h zeros) (numbers.bytes-bn2bin v)

  -- `SetNumber` writes bytes: a vector of bytes stays one.
  pub set_number-IsBytes :
      (dst : List ℕ) (offset size : ℕ) (v : o.Bignum)
      → IsBytes dst
      → IsBytes (set_number o dst offset size v)
  unfolding set_number
  set_number-IsBytes dst offset size v h = elim (Bool-cases (ltb (add32 offset size) size)) [
    | inl e ↦ rw e h
    | inr e ↦ elim (Bool-cases (leb (o.bn_num_bytes v) size && ltb size (2 ^ 31))) [
      | inl fit ↦
          rw (e, fit)
            (put_padded-IsBytes (resized o dst (add32 offset size)) offset size v
              (resized-IsBytes dst (add32 offset size) h))
      | inr fit ↦ rw (e, fit) h
    ]
  ]

  length-resized : (dst : List ℕ) (n : ℕ) → length (resized o dst n) ≡ max (length dst) n
  length-resized dst n = elim (Bool-cases (ltb (length dst) n)) [
    | inl e ↦
        rw
          (
            e,
            length-append dst (replicate (n - length dst) 0),
            length-replicate {A = ℕ} (n - length dst) 0,
          )
          (let more = ltb→lt _ _ e in omega arith)
    | inr e ↦ rw e (let less = ltb→le _ _ e in omega arith)
  ]

  refused :
      (dst : List ℕ) (offset size : ℕ) (v : o.Bignum)
      → offset < 2 ^ 32
      → size < 2 ^ 32
      → (ltb (offset + size) (2 ^ 32) && (leb (o.bn_num_bytes v) size && ltb size (2 ^ 31))) ≡ false
      → set_number o dst offset size v ≡ dst
  unfolding set_number
  refused dst offset size v offset_lt size_lt h = elim (Bool-cases (ltb (add32 offset size) size)) [
    | inl e ↦ rw e
    | inr e ↦
        let unfit : (leb (o.bn_num_bytes v) size && ltb size (2 ^ 31)) ≡ false = ground arith in
        rw (e, unfit)
  ]

  pub fitting :
      (dst : List ℕ) (offset size : ℕ) (v : o.Bignum)
      → offset + size < 2 ^ 32
      → o.bn_num_bytes v ≤ size
      → size < 2 ^ 31
      → length (set_number o dst offset size v) ≡ max (length dst) (offset + size)
  unfolding set_number
  fitting dst offset size v small fits short =
      let no_wrap : add32 offset size ≡ offset + size = omega arith in
      let kept : ltb (offset + size) size ≡ false = le→ltb _ _ (omega arith) in
      let fit : (leb (o.bn_num_bytes v) size && ltb size (2 ^ 31)) ≡ true = ground arith in
      let long = length-resized dst (offset + size) in
      rw (no_wrap, kept, fit)
        (length-put_padded (resized o dst (offset + size)) offset size v (omega (arith, long)) fits
          ∙ long)

  -- What the checks of `SetNumber` come to: the end of the place is an `unsigned int`, the number fits the
  -- size, and the size is an `int`.
  abbrev pub has_place : ℕ → ℕ → o.Bignum → Bool
  has_place offset size v =
      ltb (offset + size) (2 ^ 32) && (leb (o.bn_num_bytes v) size && ltb size (2 ^ 31))

  -- For an offset and a size of type `unsigned int`, `SetNumber` grows the vector just to the end of the
  -- place, or not at all where the vector reaches that far, if that end is an `unsigned int`, the number fits
  -- the size and the size is below 2^31; otherwise the length of the vector stays.
  pub set_number-length :
      (dst : List ℕ) (offset size : ℕ) (v : o.Bignum)
      → offset < 2 ^ 32
      → size < 2 ^ 32
      → length (set_number o dst offset size v)
        ≡ (if has_place offset size v then max (length dst) (offset + size) else length dst)
  set_number-length dst offset size v offset_lt size_lt =
      elim (Bool-cases (has_place offset size v)) [
        | inl e ↦ rw e (fitting dst offset size v (ground arith) (ground arith) (ground arith))
        | inr e ↦ rw e (ap length (refused dst offset size v offset_lt size_lt e))
      ]
