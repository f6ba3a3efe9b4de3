-- ===== src/MultiSig/Domains.antt =====
-- src/libSchnorr/src/MultiSig_CommitPointHash.cpp.
use schnorr.Common.{
  ℕ, ◌%◌, ◌≡◌, ◌≢◌, List, [], ◌∷◌, ◌++◌, true, false, not, none, some, refl, sym, ap, ◌∙◌, arith,
  ◌==◌,
}
use schnorr.Common.Bytes.{be}
use mathlib.Core.Option.{some-injective}
use schnorr.OpenSsl.{OpenSsl, nnmod}
use schnorr.Run.{
  returns, bad_alloc, finish-call, returns-injective, or_throw-returns, call-returns,
  or_return-returns, called_or_return-returns, return_if-returns, deref-returns,
}
use schnorr.OpenSsl.Laws.{Documented}
use schnorr.Sha2
use schnorr.Sha2.Absorb.{update-Holds, finalize-Holds}
use schnorr.Sizes.{second_domain_separated_hash_function_byte}
use schnorr.MultiSig.CommitPoint.{CommitPoint}
use schnorr.MultiSig.CommitPointHash
use schnorr.MultiSig.CommitPointHash.{CommitPointHash}
use schnorr.MultiSig.Objects.{number_new, number_eq}
use schnorr.Verify.Steps.{tested_octets, octets-finite, octets_or_return-returns}
use schnorr.Verify.Sound.{new-Holds}

module _ (o : OpenSsl) (doc : Documented o) where
  open doc use {group, numbers, curve, hash}

  -- What is hashed for a commitment's point.
  abbrev pub point_transcript : group.Elt → List ℕ
  point_transcript p = (second_domain_separated_hash_function_byte ∷ []) ++ group.encode p

  -- What an initialized hash of a commitment's point holds.
  pub record IsPointHash (h : CommitPointHash o) (commit : CommitPoint o) : Type 0 where
    pub number : o.Bignum
    pub point : o.Point
    pub held : h.number ≡ some number
    pub initialized : h.initialized ≡ true
    pub committed : commit.point ≡ some point
    pub commit_initialized : commit.initialized ≡ true
    pub finite : curve.element point ≢ group.identity
    pub nonneg : o.bn_is_negative number ≡ false
    pub value :
        numbers.value number
        ≡ be (hash.digest (point_transcript (curve.element point))) % numbers.order

  not_initialized :
      (x c : CommitPointHash o) → x.initialized ≡ false → c.initialized ≡ true → ¬ (x ≡ c)
  not_initialized x c off on e = cc (ap (λ (y : CommitPointHash o). y.initialized) e)

  set-IsPointHash :
      (self h : CommitPointHash o) (commit : CommitPoint o)
      → self.initialized ≡ false
      → h.initialized ≡ true
      → CommitPointHash.set o self commit ≡ returns h
      → IsPointHash h commit
  unfolding CommitPointHash.set
  set-IsPointHash self h commit off on e =
      let cleared : CommitPointHash o = record self { initialized = false } in
      let cleared_ne = not_initialized cleared h refl on in
      let (init, h1) =
        return_if-returns (not commit.initialized) self _ h (not_initialized self h off on) e in
      let (sha2, made, h2) = call-returns (Sha2.new o 256) _ h h1 in
      let (p, p_eq, h3) = deref-returns commit.point _ h h2 in
      let (p_test, h4) = octets_or_return-returns o p cleared _ h cleared_ne h3 in
      let hashed = Sha2.update o (Sha2.update o sha2 (0x01 ∷ [])) (o.ec_point_point2oct p 33) in
      let (a, read, h5) =
        or_return-returns (o.bn_bin2bn (Sha2.finalize o hashed).0) cleared _ h cleared_ne h4 in
      let (target, _, h6) = deref-returns self.number _ h h5 in
      let unreduced : CommitPointHash o = record { number = some a; initialized = false } in
      let (b, reduced, h7) =
        called_or_return-returns (nnmod o a o.curve_order none) unreduced _ h
          (not_initialized unreduced h refl on) h6 in
      let (a_value, a_nonneg) = numbers.bin2bn_lem _ a read in
      let (value, nonneg) = numbers.nnmod_lem a b none a_nonneg reduced in
      let digest = finalize-Holds o hash hashed ((0x01 ∷ []) ++ o.ec_point_point2oct p 33) (
        update-Holds o hash _ (0x01 ∷ []) (o.ec_point_point2oct p 33)
          (update-Holds o hash sha2 [] (0x01 ∷ []) (new-Holds o doc sha2 made))) in
      record {
        number = b;
        point = p;
        held = ap (λ (y : CommitPointHash o). y.number) (sym (returns-injective h7));
        initialized = on;
        committed = p_eq;
        commit_initialized = ground (arith, init);
        finite = octets-finite o doc p p_test;
        nonneg = nonneg;
        value =
            value
            ∙ ap (λ n. n % numbers.order)
                (a_value
                  ∙ ap be (
                      digest
                      ∙ ap (λ bs. hash.digest ((0x01 ∷ []) ++ bs)) (tested_octets o doc p p_test)));
      }

  -- Where `CommitPointHash(point)` gives an initialized object, the point was initialized and finite, and
  -- the object holds the hash of the byte 0x01 and the point's octets, modulo the order.
  pub of_point-IsPointHash :
      (h : CommitPointHash o) (commit : CommitPoint o)
      → h.initialized ≡ true
      → CommitPointHash.of_point o commit ≡ returns h
      → IsPointHash h commit
  unfolding CommitPointHash.of_point CommitPointHash.new number_new
  of_point-IsPointHash h commit on e =
      let (self, made, h1) = call-returns (number_new o) _ h e in
      let (n, _, s) = or_throw-returns o.bn_new bad_alloc _ self made in
      let off : self.initialized ≡ false =
        ap (λ (y : CommitPointHash o). y.initialized) (sym (returns-injective s)) in
      set-IsPointHash self h commit off on
        (sym (finish-call (CommitPointHash.set o self commit)) ∙ h1)

  PointHash-eq :
      (h h' : CommitPointHash o) (commit commit' : CommitPoint o) (p p' : o.Point)
      (s : IsPointHash h commit) (t : IsPointHash h' commit')
      → commit.point ≡ some p
      → commit'.point ≡ some p'
      → CommitPointHash.eq o h h'
        ≡ returns (
            be (hash.digest (point_transcript (curve.element p))) % numbers.order
            == be (hash.digest (point_transcript (curve.element p'))) % numbers.order)
  unfolding CommitPointHash.eq number_eq
  PointHash-eq h h' commit commit' p p' s t held held' =
      let cmp = numbers.cmp_lem s.number t.number s.nonneg t.nonneg in
      let same : s.point ≡ p = some-injective _ _ (sym s.committed ∙ held) in
      let same' : t.point ≡ p' = some-injective _ _ (sym t.committed ∙ held') in
      rw (s.initialized, t.initialized, s.held, t.held, cmp, s.value, t.value, same, same')

  -- Where `CommitPointHash(commit)` and `CommitPointHash(commit')` give initialized objects, `operator==`
  -- of the two decides whether the hashes of the byte 0x01 and the octets of the two points are equal
  -- modulo the order.
  pub of_point-eq :
      (h h' : CommitPointHash o) (commit commit' : CommitPoint o) (p p' : o.Point)
      → commit.point ≡ some p
      → commit'.point ≡ some p'
      → h.initialized ≡ true
      → h'.initialized ≡ true
      → CommitPointHash.of_point o commit ≡ returns h
      → CommitPointHash.of_point o commit' ≡ returns h'
      → CommitPointHash.eq o h h'
        ≡ returns (
            be (hash.digest (point_transcript (curve.element p))) % numbers.order
            == be (hash.digest (point_transcript (curve.element p'))) % numbers.order)
  of_point-eq h h' commit commit' p p' held held' on on' e e' =
      PointHash-eq h h' commit commit' p p' (of_point-IsPointHash h commit on e)
        (of_point-IsPointHash h' commit' on' e') held held'
