-- ===== src/MultiSig/Challenges.antt =====
-- src/libSchnorr/src/MultiSig_Challenge.cpp: the challenge that an initialized object holds.
use schnorr.Common.{
  ℕ, ◌+◌, ◌%◌, ◌≤◌, ◌<◌, ◌≡◌, ◌≢◌, List, [], ◌∷◌, true, false, length, slice, not, none, some,
}
use schnorr.Common.Bytes.{be}
use schnorr.OpenSsl.{OpenSsl, nnmod}
use schnorr.Run.{
  returns, bad_alloc, finish-call, returns-injective, or_throw-returns, call-returns,
  or_return-returns, called_or_return-returns, return_if-returns, deref-returns,
}
use schnorr.Common.{refl, sym, ap, subst, ◌∙◌, arith, ◌==◌, ltb, add32}
use schnorr.Sha2.Absorb.{update_range-returns}
use schnorr.OpenSsl.Laws.{Documented}
use schnorr.Keys.{PubKey}
use schnorr.Sha2
use schnorr.Sha2.Absorb.{update-Holds}
use schnorr.MultiSig.Challenge
use schnorr.MultiSig.Challenge.{Challenge}
use schnorr.MultiSig.CommitPoint.{CommitPoint}
use schnorr.MultiSig.Objects.{number_new}
use schnorr.Verify.Accepts.{transcript}
use schnorr.Verify.Steps.{octets-finite, octets_or_return-returns, challenge_number}
use schnorr.Verify.Sound.{new-Holds}

module _ (o : OpenSsl) (doc : Documented o) where
  open doc use {group, numbers, curve, hash}

  -- What an initialized challenge is: the hash of the byte 0x11, the commitment, the key and the slice.
  pub record IsChallenge (challenge : Challenge o) (commit : CommitPoint o) (key : PubKey o)
      (message : List ℕ) (offset size : ℕ) : Type 0 where
    pub number : o.Bignum
    pub point : o.Point
    pub held : challenge.number ≡ some number
    pub committed : commit.point ≡ some point
    pub commit_initialized : commit.initialized ≡ true
    pub message_pos : 0 < length message
    pub inside : offset + size ≤ length message
    pub commitment_finite : curve.element point ≢ group.identity
    pub key_finite : curve.element key.p ≢ group.identity
    pub nonneg : o.bn_is_negative number ≡ false
    pub value :
        numbers.value number
        ≡ be (
            hash.digest (
              transcript o doc
                (0x11 ∷ [])
                (curve.element point)
                (curve.element key.p)
                (slice message offset size)))
          % numbers.order

  not_initialized : (x c : Challenge o) → x.initialized ≡ false → c.initialized ≡ true → ¬ (x ≡ c)
  not_initialized x c off on e = cc (ap (λ (y : Challenge o). y.initialized) e)

  -- A challenge that `Set` leaves initialized, which was not so before.
  set-IsChallenge :
      (self c : Challenge o) (commit : CommitPoint o) (key : PubKey o) (message : List ℕ)
      (offset size : ℕ)
      → self.initialized ≡ false
      → c.initialized ≡ true
      → Challenge.set o self commit key message offset size ≡ returns c
      → IsChallenge c commit key message offset size
  unfolding Challenge.set
  set-IsChallenge self c commit key message offset size off on h =
      let cleared : Challenge o = record self { initialized = false } in
      let self_ne = not_initialized self c off on in
      let cleared_ne = not_initialized cleared c refl on in
      let (init, h1) = return_if-returns (not commit.initialized) self _ c self_ne h in
      let (empty, h2) = return_if-returns (length message == 0) self _ c self_ne h1 in
      let (_, h3) =
        return_if-returns (ltb (length message) (add32 offset size)) self _ c self_ne h2 in
      let (sha2, made, h4) = call-returns (Sha2.new o 256) _ c h3 in
      let (p, p_eq, h5) = deref-returns commit.point _ c h4 in
      let (p_test, h6) = octets_or_return-returns o p cleared _ c cleared_ne h5 in
      let (k_test, h7) = octets_or_return-returns o key.p cleared _ c cleared_ne h6 in
      let start = Sha2.update o sha2 (0x11 ∷ []) in
      let keyed =
        Sha2.update o (Sha2.update o start (o.ec_point_point2oct p 33))
          (o.ec_point_point2oct key.p 33) in
      let (hashed, run, h8) = call-returns (Sha2.update_range o keyed message offset size) _ c h7 in
      let (inside, e) = update_range-returns o keyed hashed message offset size run in
      let (a, read, h9) =
        or_return-returns (o.bn_bin2bn (Sha2.finalize o hashed).0) cleared _ c cleared_ne h8 in
      let (target, _, h10) = deref-returns self.number _ c h9 in
      let unreduced : Challenge o = record { number = some a; initialized = false } in
      let (b, reduced, h11) =
        called_or_return-returns (nnmod o a o.curve_order none) unreduced _ c
          (not_initialized unreduced c refl on) h10 in
      let (value, nonneg) =
        challenge_number o doc start (0x11 ∷ []) p key.p (slice message offset size) a b none p_test
          k_test (update-Holds o hash sha2 [] (0x11 ∷ []) (new-Holds o doc sha2 made))
          (subst (λ (s : Sha2.Sha2 o). o.bn_bin2bn (Sha2.finalize o s).0 ≡ some a) e read)
          reduced in
      let same = returns-injective h11 in
      record {
        number = b;
        point = p;
        held = ap (λ (y : Challenge o). y.number) (sym same);
        committed = p_eq;
        commit_initialized = ground (arith, init);
        message_pos = ground (arith, empty);
        inside = inside;
        commitment_finite = octets-finite o doc p p_test;
        key_finite = octets-finite o doc key.p k_test;
        nonneg = nonneg;
        value = value;
      }

  -- Where `Challenge(commit, key, message, offset, size)` gives an initialized object, the commitment
  -- was initialized, the message is not empty, the slice lies inside it, the two points are finite, and
  -- the object holds the hash of the byte 0x11, the commitment, the key and the slice, modulo
  -- the order.
  pub of_slice-IsChallenge :
      (c : Challenge o) (commit : CommitPoint o) (key : PubKey o) (message : List ℕ)
      (offset size : ℕ)
      → c.initialized ≡ true
      → Challenge.of_slice o commit key message offset size ≡ returns c
      → IsChallenge c commit key message offset size
  unfolding Challenge.of_slice number_new
  of_slice-IsChallenge c commit key message offset size on h =
      let (self, made, h1) = call-returns (number_new o) _ c h in
      let (n, _, e) = or_throw-returns o.bn_new bad_alloc _ self made in
      let off : self.initialized ≡ false =
        ap (λ (y : Challenge o). y.initialized) (sym (returns-injective e)) in
      set-IsChallenge self c commit key message offset size off on
        (sym (finish-call (Challenge.set o self commit key message offset size)) ∙ h1)
