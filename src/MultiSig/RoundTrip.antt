-- ===== src/MultiSig/RoundTrip.antt =====
-- `Serialize` and `Deserialize` of src/libSchnorr/src/MultiSig_CommitSecret.cpp and MultiSig_Response.cpp.
use schnorr.Common.{ℕ, ◌+◌, ◌^◌, ◌<◌, ◌≡◌, refl, ap, List, Bool, true, false, some, not, arith}
use schnorr.Run.{returns, return_if-step, deref-step}
use schnorr.OpenSsl.{OpenSsl}
use schnorr.OpenSsl.Laws.{Documented, NeverFails}
use schnorr.BignumSerialize.{set_number}
use schnorr.BignumSerialize.RoundTrip.{get_number-set_number}
use schnorr.BignumSerialize.Bounds.{fitting}
use schnorr.Common.{length, max}
use schnorr.Keys.RoundTrip.{equal_lem}
use schnorr.MultiSig.Objects.{NumberObject, number_serialize, number_deserialize, number_eq}
use schnorr.MultiSig.CommitSecret
use schnorr.MultiSig.CommitSecret.{CommitSecret}
use schnorr.MultiSig.Response
use schnorr.MultiSig.Response.{Response}
use schnorr.MultiSig.Signer.{HoldsNumber}

module _ (o : OpenSsl) (doc : Documented o) (runs : NeverFails o doc.group doc.numbers) where
  open doc use {numbers}

  pub number_lem :
      (size : ℕ) (self other : NumberObject o) (n : o.Bignum) (dst : List ℕ) (offset : ℕ)
      → HoldsNumber o doc runs self n
      → numbers.value n < 256 ^ size
      → offset + size < 2 ^ 32
      → size < 2 ^ 31
      → (dst' : List ℕ) × (read : NumberObject o) × (number_serialize o size self dst offset
          ≡ returns (dst', true))
        × (length dst' ≡ max (length dst) (offset + size))
        × (number_deserialize o size other dst' offset ≡ (read, true))
        × (number_eq o read self ≡ returns true)
  unfolding number_serialize number_deserialize number_eq
  number_lem size self other n dst offset (init, held, nonneg) lt small short =
      let (a, read, value, a_nonneg) =
        get_number-set_number o doc runs dst offset size n small short
          (numbers.num_bytes-le n size lt) in
      let equal = equal_lem o doc runs a n a_nonneg nonneg value in
      (
        set_number o dst offset size n,
        record { number = some a; initialized = true },
        return_if-step (not self.initialized) _ _ (ap not init)
            (deref-step self.number _ held refl),
        fitting o numbers dst offset size n small (numbers.num_bytes-le n size lt) short,
        rw (read, number_deserialize),
        rw (init, held, equal),
      )

  -- A response that is initialized and holds a number below 256^32 that is not negative is serialized with
  -- the result `true`; `Deserialize` reads it from the same offset with the result `true`, and
  -- `operator==` finds the response read equal, where the end of the place fits an `unsigned int` and no
  -- call of OpenSSL fails.
  pub response_deserialize-serialize :
      (self other : Response o) (n : o.Bignum) (dst : List ℕ) (offset : ℕ)
      → HoldsNumber o doc runs self n
      → numbers.value n < 256 ^ 32
      → offset + 32 < 2 ^ 32
      → (dst' : List ℕ) × (read : Response o) × (Response.serialize o self dst offset
          ≡ returns (dst', true))
        × (Response.deserialize o other dst' offset ≡ (read, true))
        × (Response.eq o read self ≡ returns true)
  unfolding Response.serialize Response.deserialize Response.eq
  response_deserialize-serialize self other n dst offset holds lt small =
      let (dst', read, written, _, got, equal) =
        number_lem 32 self other n dst offset holds lt small (omega arith) in
      (dst', read, written, got, equal)

  -- A secret that is initialized and holds a number below 256^32 that is not negative is serialized with
  -- the result `true`; `Deserialize` reads it from the same offset, and `operator==` finds the secret
  -- read equal, but the result of `Deserialize` is `false`, where the end of the place fits an
  -- `unsigned int` and no call of OpenSSL fails.
  pub commit_secret_deserialize-serialize :
      (self other : CommitSecret o) (n : o.Bignum) (dst : List ℕ) (offset : ℕ)
      → HoldsNumber o doc runs self n
      → numbers.value n < 256 ^ 32
      → offset + 32 < 2 ^ 32
      → (dst' : List ℕ) × (read : CommitSecret o) × (CommitSecret.serialize o self dst offset
          ≡ returns (dst', true))
        × (CommitSecret.deserialize o other dst' offset ≡ (read, false))
        × (CommitSecret.eq o read self ≡ returns true)
  unfolding CommitSecret.serialize CommitSecret.deserialize CommitSecret.eq
  commit_secret_deserialize-serialize self other n dst offset holds lt small =
      let (dst', read, written, _, got, equal) =
        number_lem 32 self other n dst offset holds lt small (omega arith) in
      (dst', read, written, ap (λ (x : NumberObject o × Bool). (x.0, false)) got, equal)
