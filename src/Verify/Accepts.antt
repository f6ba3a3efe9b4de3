-- ===== src/Verify/Accepts.antt =====
-- The signatures that the scheme accepts, said of numbers and of the group alone.
use schnorr.Common.{ℕ, ◌+◌, ◌%◌, ◌≤◌, ◌<◌, ◌≡◌, ◌≢◌, List, ◌++◌, false, length, slice}
use schnorr.Common.Bytes.{be}
use schnorr.OpenSsl.{OpenSsl}
use schnorr.OpenSsl.Laws.{times, Documented}
use schnorr.Keys.{PubKey, Signature}

module _ (o : OpenSsl) (doc : Documented o) where
  open doc use {group, numbers, curve, hash}

  -- A number in [1, …, order - 1].
  pub record InRange (x : o.Bignum) : Type 0 where
    pub nonneg : o.bn_is_negative x ≡ false
    pub pos : 0 < numbers.value x
    pub lt : numbers.value x < numbers.order

  -- sG + r * kpub
  abbrev pub commitment_of : Signature o → PubKey o → group.Elt
  commitment_of sig key =
      group.add (times group (numbers.value sig.s) group.generator)
        (times group (numbers.value sig.r) (curve.element key.p))

  -- What is hashed: a prefix that separates the hash functions, the commitment, the key and the slice
  -- of the message.
  abbrev pub transcript : List ℕ → group.Elt → group.Elt → List ℕ → List ℕ
  transcript start q key m = ((start ++ group.encode q) ++ group.encode key) ++ m

  -- The signature of a slice of a message, for the hash function of that prefix.
  pub record Accepts (start message : List ℕ) (offset size : ℕ) (sig : Signature o) (key : PubKey o)
      : Type 0 where
    pub message_pos : 0 < length message
    pub inside : offset + size ≤ length message
    pub r_range : InRange sig.r
    pub s_range : InRange sig.s
    pub commitment_finite : commitment_of sig key ≢ group.identity
    pub key_finite : curve.element key.p ≢ group.identity
    pub challenge :
        numbers.value sig.r
        ≡ be (
            hash.digest (
              transcript start
                (commitment_of sig key)
                (curve.element key.p)
                (slice message offset size)))
          % numbers.order
