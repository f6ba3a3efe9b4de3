-- ===== src/MultiSig/Separation.antt =====
-- The prefixes of the three hash functions in src/libSchnorr/include/Schnorr.h, and what
-- `Schnorr::Verify`, `CommitPointHash` and `Challenge` hash.
use schnorr.MultiSig.Domains.{point_transcript, of_point-IsPointHash}
use schnorr.Common.{ℕ, ◌%◌, ◌≡◌, ◌≢◌, List, [], ◌∷◌, true, some, refl, sym, ap, ◌∙◌, arith}
use schnorr.Common.Bytes.{be}
use schnorr.OpenSsl.{OpenSsl}
use schnorr.Run.{returns}
use schnorr.OpenSsl.Laws.{Documented}
use schnorr.Sizes.{third_domain_separated_hash_function_byte}
use schnorr.MultiSig.CommitPoint.{CommitPoint}
use schnorr.MultiSig.CommitPointHash
use schnorr.MultiSig.CommitPointHash.{CommitPointHash}
use schnorr.Verify.Accepts.{transcript}
use schnorr.Common.{slice, Option}
use schnorr.Keys.{PubKey, Signature}
use schnorr.MultiSig.Challenge
use schnorr.MultiSig.Challenge.{Challenge}
use schnorr.MultiSig.Challenges.{of_slice-IsChallenge}
use schnorr.MultiSig.Sums.{element_at}
use schnorr.Verify.{verify_slice}
use schnorr.Verify.Accepts.{commitment_of}
use schnorr.Verify.Sound.{verify_slice_sound}

module _ (o : OpenSsl) (doc : Documented o) where
  open doc use {group, numbers, curve, hash}

  abbrev first : List ℕ → ℕ
  first [] = 0
  first (b ∷ bs) = b

  -- The inputs of the three hash functions, for `Sign` and `Verify`, for `CommitPointHash` and for the
  -- challenge of a multisignature, never coincide where the commitment of the first is finite.
  transcripts-differ :
      (q k q' k' p : group.Elt) (m m' : List ℕ)
      → q ≢ group.identity
      → (transcript o doc [] q k m ≢ point_transcript o doc p)
        × (transcript o doc [] q k m
            ≢ transcript o doc (third_domain_separated_hash_function_byte ∷ []) q' k' m')
        × (point_transcript o doc p
            ≢ transcript o doc (third_domain_separated_hash_function_byte ∷ []) q' k' m')
  transcripts-differ q k q' k' p m m' finite =
      let (b, bs, e, low, high) = group.encode_sign q finite in
      let head : first (transcript o doc [] q k m) ≡ b = rw e in
      (
        λ h. let same = sym head ∙ ap first h in omega arith,
        λ h. let same = sym head ∙ ap first h in omega arith,
        λ h. let same = ap first h in omega arith,
      )

  -- The number that an object holds is the hash of these bytes, modulo the order.
  abbrev pub IsHash : Option o.Bignum → List ℕ → Type 0
  IsHash x bs =
      (n : o.Bignum) × (x ≡ some n) × (numbers.value n ≡ be (hash.digest bs) % numbers.order)

  -- Where `CommitPointHash(point)` gives an initialized object, `Challenge(commit, key, message, offset,
  -- size)` an initialized challenge, and `Schnorr::Verify` accepts a signature, the first holds the hash
  -- of the byte 0x01 and the point, the second that of the byte 0x11, the commitment, the key and
  -- the slice, and r of the signature is that of sG + r * kpub, the key and its slice, each modulo
  -- the order, and no two of these three inputs are the same. No call of OpenSSL is supposed to succeed.
  pub domains-separate :
      (h : CommitPointHash o) (point : CommitPoint o) (challenge : Challenge o)
      (commit : CommitPoint o) (key : PubKey o) (message : List ℕ) (offset size : ℕ)
      (sig : Signature o) (signer : PubKey o) (signed : List ℕ) (start count : ℕ)
      → h.initialized ≡ true
      → CommitPointHash.of_point o point ≡ returns h
      → challenge.initialized ≡ true
      → Challenge.of_slice o commit key message offset size ≡ returns challenge
      → verify_slice o signed start count sig signer ≡ returns true
      → let a = point_transcript o doc (element_at o doc point.point) in
        let b =
          transcript o doc
            (third_domain_separated_hash_function_byte ∷ [])
            (element_at o doc commit.point)
            (curve.element key.p)
            (slice message offset size) in
        let c =
          transcript o doc []
            (commitment_of o doc sig signer)
            (curve.element signer.p)
            (slice signed start count) in
        IsHash h.number a
        × IsHash challenge.number b
        × IsHash (some sig.r) c
        × (a ≢ b)
        × (a ≢ c)
        × (b ≢ c)
  domains-separate h point challenge commit key message offset size sig signer signed start count
        h_on h_made c_on c_made accepted =
      let s = of_point-IsPointHash o doc h point h_on h_made in
      let t = of_slice-IsChallenge o doc challenge commit key message offset size c_on c_made in
      let v = verify_slice_sound o doc signed start count sig signer accepted in
      let (differs, differs', differs'') =
        transcripts-differ (commitment_of o doc sig signer) (curve.element signer.p)
          (element_at o doc commit.point) (curve.element key.p) (element_at o doc point.point)
          (slice signed start count) (slice message offset size) v.commitment_finite in
      (
        (s.number, s.held, rw s.committed s.value),
        (t.number, t.held, rw t.committed t.value),
        (sig.r, refl, v.challenge),
        differs'',
        λ e. differs (sym e),
        λ e. differs' (sym e),
      )
