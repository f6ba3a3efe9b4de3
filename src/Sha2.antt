-- ===== src/Sha2.antt =====
-- src/libSchnorr/src/Sha2.h: `class SHA2<SIZE>`, over OpenSSL's SHA-256 context.
pub mod Absorb
use schnorr.Common.{
  ℕ, ◌+◌, ◌/◌, Bool, List, ltb, leb, ◌==◌, not, add32, if◌then◌else◌, length, replicate, slice,
}
use schnorr.Run.{
  Run, Outcome, std_exception, faults, stop, next, finish, throw_if, ◌>>◌, ◌>>=◌, returns,
}
use schnorr.OpenSsl.{OpenSsl}

abbrev pub hash_variant_256 : ℕ
hash_variant_256 = 256

abbrev pub hash_variant_512 : ℕ
hash_variant_512 = 512

pub record Sha2 (o : OpenSsl) : Type 0 where
  pub context : o.ShaCtx
  pub output : List ℕ

module _ (o : OpenSsl) where
  unfoldable pub reset : Sha2 o → Sha2 o
  reset s = record s { context = o.sha256_init }

  -- The constructor, for the template parameter `SIZE`. The context that it begins with is
  -- `SHA256_Init`'s; that of `m_context{}` is overwritten.
  unfoldable pub new : ℕ → Outcome (Sha2 o)
  unfolding reset
  new size = finish do
    throw_if (not (size == hash_variant_256)) std_exception
    next (reset (record { context = o.sha256_init; output = replicate (size / 8) 0 }))

  unfoldable pub update : Sha2 o → List ℕ → Sha2 o
  update s input =
      if length input == 0 then s else record s { context = o.sha256_update s.context input }

  -- `Update(input, offset, size)`. Where the sum of two `unsigned int` wraps, the check passes and
  -- bytes behind the end of the vector are read.
  unfoldable pub update_range : Sha2 o → List ℕ → ℕ → ℕ → Outcome (Sha2 o)
  update_range s input offset size = finish do
    throw_if (ltb (length input) (add32 offset size)) std_exception
    if leb (offset + size) (length input)
        then next (record s { context = o.sha256_update s.context (slice input offset size) })
        else stop faults

  -- `Finalize`, at `SIZE` 256.
  unfoldable pub finalize : Sha2 o → List ℕ × Sha2 o
  finalize s =
      let (digest, left) = o.sha256_final s.context in
      (digest, record { context = left; output = digest })
