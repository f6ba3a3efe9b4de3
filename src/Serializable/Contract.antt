-- ===== src/Serializable/Contract.antt =====
-- src/libSchnorr/include/Schnorr.h, `SerializableCrypto`: what a class that implements it promises.
use schnorr.Common.{ℕ, ◌+◌, ◌^◌, ◌<◌, ◌≡◌, max, List, true, length}
use schnorr.Run.{returns}
use schnorr.Serializable.{SerializableCrypto}

-- Of a class whose encoding has `size` bytes: an object that is valid is written with the result `true`, over
-- or behind what the vector holds, and read back into any object with the result `true`, as an equal one.
pub record Contract {T : Type 0} (t : SerializableCrypto T) (size : ℕ) (Valid : T → Type 0)
    (Equal : T → T → Type 0) : Type 0 where
  pub round_trip :
      (x y : T) (dst : List ℕ) (offset : ℕ)
      → Valid x
      → offset + size < 2 ^ 32
      → (dst' : List ℕ) × (read : T) × (t.serialize x dst offset ≡ returns (dst', true))
        × (length dst' ≡ max (length dst) (offset + size))
        × (t.deserialize y dst' offset ≡ returns (read, true))
        × Equal read x
