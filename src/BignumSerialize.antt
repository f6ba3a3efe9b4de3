-- ===== src/BignumSerialize.antt =====
-- src/libSchnorr/src/BIGNUMSerialize.cpp. The lock guards OpenSSL and keeps no state.
pub mod RoundTrip
pub mod Frame
pub mod Outside
pub mod Bounds
use schnorr.Common.{
  ℕ, ◌+◌, ◌-◌, ◌^◌, ◌&&◌, List, Option, none, length, replicate, slice, write, grow, ltb, leb,
  add32, if◌then◌else◌,
}
use schnorr.OpenSsl.{OpenSsl}

module _ (o : OpenSsl) where
  -- `nullptr` is `none`.
  unfoldable pub get_number : List ℕ → ℕ → ℕ → Option o.Bignum
  get_number src offset size =
      if ltb (add32 offset size) size
      then none
      else if ltb (length src) (add32 offset size)
      then none
      else o.bn_bin2bn (slice src offset size)

  -- The vector, made long enough.
  abbrev pub resized : List ℕ → ℕ → List ℕ
  resized dst n = if ltb (length dst) n then grow 0 dst n else dst

  -- The zeros in front and the octets, over the elements from `offset`.
  unfoldable pub put_padded : List ℕ → ℕ → ℕ → o.Bignum → List ℕ
  put_padded dst offset size value =
      let size_diff = size - o.bn_num_bytes value in
      let padded = write dst offset (replicate size_diff 0) in
      write padded (offset + size_diff) (o.bn_bn2bin value)

  -- The new contents of `dst`. `(int)size` is negative from 2^31 on.
  unfoldable pub set_number : List ℕ → ℕ → ℕ → o.Bignum → List ℕ
  set_number dst offset size value =
      if ltb (add32 offset size) size
      then dst
      else if leb (o.bn_num_bytes value) size && ltb size (2 ^ 31)
      then put_padded (resized dst (add32 offset size)) offset size value
      else dst
