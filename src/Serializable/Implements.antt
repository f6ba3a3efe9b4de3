-- ===== src/Serializable/Implements.antt =====
-- The classes of src/libSchnorr/include/Schnorr.h and MultiSig.h that implement `SerializableCrypto`, against its
-- contract.
use schnorr.Common.{
  ℕ, ◌+◌, ◌^◌, ◌<◌, ◌≡◌, ◌≢◌, refl, ap, ◌∙◌, max, not, true, false, List, some, length, arith,
}
use schnorr.Run.{
  returns, bad_alloc, or_throw-step, or_return-step, call-step, return_if-step, deref-step,
}
use schnorr.OpenSsl.{OpenSsl}
use schnorr.OpenSsl.Laws.{Documented, NeverFails}
use schnorr.BignumSerialize.{set_number}
use schnorr.BignumSerialize.RoundTrip.{get_number-set_number, no_wrap}
use schnorr.BignumSerialize.Bounds.{fitting}
use schnorr.EcPointSerialize
use schnorr.Keys.{
  PubKey, Signature, priv_key_serialize, priv_key_deserialize, priv_key_eq, pub_key_serialize,
  pub_key_deserialize, pub_key_eq, signature_serialize, signature_eq,
}
use schnorr.Keys.Order.{pub_key_order}
use schnorr.Keys.RoundTrip.{copy_of_read, signature_deserialize-signature_serialize}
use schnorr.MultiSig.Objects.{NumberObject}
use schnorr.MultiSig.CommitPoint
use schnorr.MultiSig.CommitPoint.{CommitPoint, is_same}
use schnorr.MultiSig.CommitPointHash
use schnorr.MultiSig.Challenge
use schnorr.MultiSig.Response
use schnorr.MultiSig.RoundTrip.{number_lem}
use schnorr.MultiSig.Signer.{HoldsNumber}
use schnorr.Serializable.{
  priv_key_serializable, pub_key_serializable, signature_serializable, commit_point_serializable,
  commit_point_hash_serializable, challenge_serializable, response_serializable,
}
use schnorr.Serializable.Contract.{Contract}
use schnorr.Serializable.Points.{point-get_number-set_number}
use schnorr.Verify.Steps.{eq-cmp}

module _ (o : OpenSsl) (doc : Documented o) (runs : NeverFails o doc.group doc.numbers) where
  open doc use {group, numbers, curve}

  -- A number that 32 bytes hold.
  abbrev pub Fits : o.Bignum → Type 0
  Fits n = (o.bn_is_negative n ≡ false) × (numbers.value n < 256 ^ 32)

  -- An object that is initialized and holds such a number, and two objects that `operator==` finds equal.
  abbrev pub HoldsFit : NumberObject o → Type 0
  HoldsFit x = (n : o.Bignum) × HoldsNumber o doc runs x n × (numbers.value n < 256 ^ 32)

  signature_true :
      (x : Signature o) (dst : List ℕ) (offset : ℕ)
      → returns (signature_serialize o x dst offset)
        ≡ returns ((signature_serialize o x dst offset).0, true)
  unfolding signature_serialize
  signature_true x dst offset = refl

  length-signature :
      (x : Signature o) (dst : List ℕ) (offset : ℕ)
      → Fits x.r
      → Fits x.s
      → offset + 64 < 2 ^ 32
      → length (signature_serialize o x dst offset).0 ≡ max (length dst) (offset + 64)
  unfolding signature_serialize
  length-signature x dst offset (_, r_lt) (_, s_lt) small =
      let first = set_number o dst offset 32 x.r in
      let one =
        fitting o numbers dst offset 32 x.r (omega arith) (numbers.num_bytes-le x.r 32 r_lt)
          (omega arith) in
      let two =
        fitting o numbers first (offset + 32) 32 x.s (omega arith)
          (numbers.num_bytes-le x.s 32 s_lt) (omega arith) in
      rw (no_wrap o doc runs offset 32 (omega arith)) (omega (arith, one, two))

  commit_point_equal :
      (x : CommitPoint o) (p q : o.Point)
      → x.initialized ≡ true
      → x.point ≡ some p
      → curve.element q ≡ curve.element p
      → CommitPoint.eq o (record { point = some q; initialized = true }) x ≡ returns true
  unfolding CommitPoint.eq
  commit_point_equal x p q init held same =
      let met = eq-cmp o doc runs q p same in
      or_throw-step o.bn_ctx_new bad_alloc _ runs.bn_ctx_new.1 (
        return_if-step (not x.initialized) false _ (ap not init)
          (deref-step x.point _ held (rw met)))

  pub priv_key-Contract :
      Contract (priv_key_serializable o) 32 (λ x. Fits x.d) (λ x y. priv_key_eq o x y ≡ true)
  unfolding priv_key_serialize priv_key_deserialize priv_key_eq
  priv_key-Contract = record {
    round_trip = λ x y dst offset (nonneg, lt) small.
        (let fits = numbers.num_bytes-le x.d 32 lt in
          let (a, read, value, a_nonneg) =
            get_number-set_number o doc runs dst offset 32 x.d small (omega arith) fits in
          let (b, copied, equal) = copy_of_read o doc runs a x.d nonneg value a_nonneg in
          (
            set_number o dst offset 32 x.d,
            record { d = b },
            refl,
            fitting o numbers dst offset 32 x.d small fits (omega arith),
            rw (read, copied, priv_key_deserialize),
            equal,
          ));
  }

  pub pub_key-Contract :
      Contract
        (pub_key_serializable o)
        33
        (λ x. curve.element x.p ≢ group.identity)
        (λ x y. pub_key_eq o x y ≡ returns true)
  unfolding pub_key_serialize pub_key_deserialize
  pub_key-Contract = record {
    round_trip = λ x y dst offset finite small.
        (let (dst', q, written, len, read, same) =
            point-get_number-set_number o doc runs dst offset x.p small finite in
          let (p, copied) = runs.point_copy q in
          let key : PubKey o = record { p = p } in
          let (_, _, eq, _, decides) = pub_key_order o doc runs key x in
          (
            dst',
            key,
            call-step (EcPointSerialize.set_number o dst offset 33 x.p) _ written refl,
            len,
            call-step (EcPointSerialize.get_number o dst' offset 33) _ read
                ((or_return-step (o.ec_point_copy q) _ _ copied refl)),
            eq ∙ ap returns (decides.1 (curve.copy_lem q p copied ∙ same)),
          ));
  }

  pub signature-Contract :
      Contract
        (signature_serializable o)
        64
        (λ x. Fits x.r × Fits x.s)
        (λ x y. signature_eq o x y ≡ true)
  signature-Contract = record {
    round_trip = λ x y dst offset (r_fits, s_fits) small.
        (let (read, got, equal) =
            signature_deserialize-signature_serialize o doc runs x y dst offset small r_fits.0
              s_fits.0 r_fits.1 s_fits.1 in
          (
            (signature_serialize o x dst offset).0,
            read,
            signature_true x dst offset,
            length-signature x dst offset r_fits s_fits small,
            got,
            equal,
          ));
  }

  pub commit_point-Contract :
      Contract
        (commit_point_serializable o)
        33
        (λ x.
          (x.initialized ≡ true)
          × ((p : o.Point) × (x.point ≡ some p) × (curve.element p ≢ group.identity)))
        (λ x y. CommitPoint.eq o x y ≡ returns true)
  unfolding CommitPoint.serialize CommitPoint.deserialize
  commit_point-Contract = record {
    round_trip = λ x y dst offset (init, (p, held, finite)) small.
        (let (dst', q, written, len, read, same) =
            point-get_number-set_number o doc runs dst offset p small finite in
          (
            dst',
            record { point = some q; initialized = true },
            return_if-step (not x.initialized) _ _ (ap not init) (
                deref-step x.point _ held
                  (call-step (EcPointSerialize.set_number o dst offset 33 p) _ written refl)),
            len,
            call-step (EcPointSerialize.get_number o dst' offset 33) _ read (refl),
            commit_point_equal x p q init held same,
          ));
  }

  pub commit_point_hash-Contract :
      Contract
        (commit_point_hash_serializable o)
        32
        HoldsFit
        (λ x y. CommitPointHash.eq o x y ≡ returns true)
  unfolding CommitPointHash.serialize CommitPointHash.deserialize CommitPointHash.eq
  commit_point_hash-Contract = record {
    round_trip = λ x y dst offset (n, holds, lt) small.
        (let (dst', read, written, len, got, equal) =
            number_lem o doc runs 32 x y n dst offset holds lt small (omega arith) in
          (dst', read, written, len, ap returns got, equal));
  }

  pub challenge-Contract :
      Contract (challenge_serializable o) 32 HoldsFit (λ x y. Challenge.eq o x y ≡ returns true)
  unfolding Challenge.serialize Challenge.deserialize Challenge.eq
  challenge-Contract = record {
    round_trip = λ x y dst offset (n, holds, lt) small.
        (let (dst', read, written, len, got, equal) =
            number_lem o doc runs 32 x y n dst offset holds lt small (omega arith) in
          (dst', read, written, len, ap returns got, equal));
  }

  pub response-Contract :
      Contract (response_serializable o) 32 HoldsFit (λ x y. Response.eq o x y ≡ returns true)
  unfolding Response.serialize Response.deserialize Response.eq
  response-Contract = record {
    round_trip = λ x y dst offset (n, holds, lt) small.
        (let (dst', read, written, len, got, equal) =
            number_lem o doc runs 32 x y n dst offset holds lt small (omega arith) in
          (dst', read, written, len, ap returns got, equal));
  }
