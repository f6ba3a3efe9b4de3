-- ===== src/MultiSig/Objects.antt =====
-- src/libSchnorr/src/MultiSig_CommitSecret.cpp, MultiSig_CommitPointHash.cpp, MultiSig_Challenge.cpp and
-- MultiSig_Response.cpp: what these classes, which hold a number, have in common. The constructor
-- that reads a byte stream leaves a null pointer where that fails, so the pointer is an `Option`,
-- and a call of OpenSSL through a null pointer is a fault.
use schnorr.Common.{ℕ, List, Bool, true, false, Option, none, some, ◌&&◌, not, if◌then◌else◌}
use schnorr.Run.{Outcome, returns, bad_alloc, next, finish, or_throw, return_if, deref, ◌>>=◌, ◌>>◌}
use schnorr.OpenSsl.{OpenSsl}
use schnorr.BignumSerialize
use schnorr.Keys.{is_eq}

-- `m_s`, `m_h`, `m_c` or `m_r`, and `m_initialized`
pub record NumberObject (o : OpenSsl) : Type 0 where
  pub number : Option o.Bignum
  pub initialized : Bool

module _ (o : OpenSsl) where
  -- The default constructors of the challenge, the response and the point's hash.
  unfoldable pub number_new : Outcome (NumberObject o)
  number_new =
      finish
        do n ← or_throw o.bn_new bad_alloc; next (record { number = some n; initialized = false })

  -- The target of a copy that may fail, and the flag that says whether it did.
  abbrev pub copied : o.Bignum → o.Bignum → NumberObject o
  copied target src = elim (o.bn_copy src) [
    | none ↦ record { number = some target; initialized = false }
    | some n ↦ record { number = some n; initialized = true }
  ]

  -- The copy constructors. The flag of the source is not read.
  unfoldable pub number_copy : NumberObject o → Outcome (NumberObject o)
  number_copy src =
      finish do n ← or_throw o.bn_new bad_alloc; m ← deref src.number; next (copied n m)

  -- The assignments, `operator=`.
  unfoldable pub number_assign : NumberObject o → NumberObject o → Outcome (NumberObject o)
  number_assign self src = finish do n ← deref self.number; m ← deref src.number; next (copied n m)

  -- The comparisons, `operator==`.
  unfoldable pub number_eq : NumberObject o → NumberObject o → Outcome Bool
  number_eq a b =
      if a.initialized && b.initialized
      then finish (do x ← deref a.number; y ← deref b.number; next (is_eq (o.bn_cmp x y)))
      else returns false

  -- `Serialize`, at the size of the class.
  unfoldable pub number_serialize : ℕ → NumberObject o → List ℕ → ℕ → Outcome (List ℕ × Bool)
  number_serialize size self dst offset = finish do
    return_if (not self.initialized) (dst, false)
    n ← deref self.number
    next (BignumSerialize.set_number o dst offset size n, true)

  -- `Deserialize`, at the size of the class. The object is pointed at the number that is read.
  unfoldable pub number_deserialize : ℕ → NumberObject o → List ℕ → ℕ → NumberObject o × Bool
  number_deserialize size self src offset = elim (BignumSerialize.get_number o src offset size) [
    | none ↦ (self, false)
    | some n ↦ (record { number = some n; initialized = true }, true)
  ]

  -- An object before its constructor's body has run: a null pointer.
  abbrev pub blank : NumberObject o
  blank = record { number = none; initialized = false }

  -- The constructors that read a byte stream.
  unfoldable pub number_from_bytes : ℕ → List ℕ → ℕ → NumberObject o
  unfolding number_deserialize
  number_from_bytes size src offset = (number_deserialize size blank src offset).0
