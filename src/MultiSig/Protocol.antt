-- ===== src/MultiSig/Protocol.antt =====
-- A whole run of the protocol of src/libSchnorr/include/MultiSig.h: what the signers send, what the aggregator of
-- src/libSchnorr/src/MultiSig.cpp makes of it, and the verdict of the verifier.
pub mod Completes
use mathlib.Core.Path.{ap₂}
use schnorr.Common.{ap, length, suc, ◌≡◌, refl, List, [], ◌∷◌, map, true, some, All}
use schnorr.Run.{returns}
use schnorr.OpenSsl.{OpenSsl}
use schnorr.OpenSsl.Laws.{Documented, NeverFails, times}
use schnorr.OpenSsl.Group.{sum}
use schnorr.Keys.{PrivKey, PubKey, pub_key_of}
use schnorr.MultiSig.CommitSecret.{CommitSecret}
use schnorr.MultiSig.CommitPoint
use schnorr.MultiSig.CommitPoint.{CommitPoint}
use schnorr.MultiSig.Challenge
use schnorr.MultiSig.Challenge.{Challenge}
use schnorr.MultiSig.Response
use schnorr.MultiSig.Response.{Response}
use schnorr.MultiSig.Sums.{element_of}
use schnorr.MultiSig.Signer.{
  HoldsNumber, pub_key_of-element, pub_key_of-returns, of_secret-element, of_secret-returns,
  response_lem,
}
use schnorr.MultiSig.Runs.{HasPoint, HasNumber}
use schnorr.MultiSig.Signers.{Signers}
use schnorr.Verify.Accepts.{InRange}

module _ (o : OpenSsl) (doc : Documented o) (runs : NeverFails o doc.group doc.numbers) where
  open doc use {group, numbers, curve}

  -- What a signer brings: a private key in [1, …, order - 1] and an initialized secret.
  pub record Ready : Type 0 where
    pub privkey : PrivKey o
    pub secret : CommitSecret o
    pub k : o.Bignum
    pub key_range : InRange o doc privkey.d
    pub secret_holds : HoldsNumber o doc runs secret k

  abbrev pub key_element : Ready → group.Elt
  key_element x = times group (numbers.value x.privkey.d) group.generator

  abbrev pub commit_element : Ready → group.Elt
  commit_element x = times group (numbers.value x.k) group.generator

  -- The keys that the signers send, position by position.
  abbrev pub Keys : List Ready → List (PubKey o) → Type 0
  Keys [] [] = Unit
  Keys (x ∷ xs) (k ∷ ks) = (pub_key_of o x.privkey ≡ returns k) × Keys xs ks
  Keys _ _ = ⊥

  abbrev pub Commits : List Ready → List (CommitPoint o) → Type 0
  Commits [] [] = Unit
  Commits (x ∷ xs) (c ∷ cs) = (CommitPoint.of_secret o x.secret ≡ returns c) × Commits xs cs
  Commits _ _ = ⊥

  -- Their responses to the challenge.
  abbrev pub Responses : Challenge o → List Ready → List (Response o) → Type 0
  Responses challenge [] [] = Unit
  Responses challenge (x ∷ xs) (r ∷ rs) =
      (Response.of_secret o x.secret challenge x.privkey ≡ returns r) × Responses challenge xs rs
  Responses challenge _ _ = ⊥

  -- Each signer sends one.
  pub length-Keys : (xs : List Ready) (ks : List (PubKey o)) → Keys xs ks → length ks ≡ length xs
  length-Keys [] [] made = refl
  length-Keys [] (k ∷ ks) made = elim made [ ]
  length-Keys (x ∷ xs) [] made = elim made [ ]
  length-Keys (x ∷ xs) (k ∷ ks) (_, made) = ap suc (length-Keys xs ks made)

  pub length-Commits :
      (xs : List Ready) (cs : List (CommitPoint o)) → Commits xs cs → length cs ≡ length xs
  length-Commits [] [] made = refl
  length-Commits [] (c ∷ cs) made = elim made [ ]
  length-Commits (x ∷ xs) [] made = elim made [ ]
  length-Commits (x ∷ xs) (c ∷ cs) (_, made) = ap suc (length-Commits xs cs made)

  pub length-Responses :
      (challenge : Challenge o) (xs : List Ready) (rs : List (Response o))
      → Responses challenge xs rs
      → length rs ≡ length xs
  length-Responses challenge [] [] made = refl
  length-Responses challenge [] (r ∷ rs) made = elim made [ ]
  length-Responses challenge (x ∷ xs) [] made = elim made [ ]
  length-Responses challenge (x ∷ xs) (r ∷ rs) (_, made) =
      ap suc (length-Responses challenge xs rs made)

  Keys-sent :
      (xs : List Ready)
      → (ks : List (PubKey o)) × Keys xs ks
        × (sum group (map (λ (k : PubKey o). curve.element k.p) ks)
            ≡ sum group (map key_element xs))
  Keys-sent [] = ([], tt, refl)
  Keys-sent (x ∷ xs) =
      let (k, made) = pub_key_of-returns o doc runs x.privkey x.key_range in
      let (ks, all, rest) = Keys-sent xs in
      (
        k ∷ ks,
        (made, all),
        ap₂ group.add (pub_key_of-element o doc runs x.privkey k x.key_range made) rest,
      )

  Commits-sent :
      (xs : List Ready)
      → (cs : List (CommitPoint o)) × Commits xs cs
        × All (HasPoint o doc runs) cs
        × (sum group (map (element_of o doc) cs) ≡ sum group (map commit_element xs))
  Commits-sent [] = ([], tt, tt, refl)
  Commits-sent (x ∷ xs) =
      let (q, made) = of_secret-returns o doc runs x.secret x.k x.secret_holds in
      let c : CommitPoint o = record { point = some q; initialized = true } in
      let (cs, all, have, rest) = Commits-sent xs in
      let (element, _) = of_secret-element o doc runs x.secret x.k c x.secret_holds made in
      (c ∷ cs, (made, all), ((q, refl), have), ap₂ group.add element rest)

  Responses-sent :
      (challenge : Challenge o) (c : o.Bignum) (xs : List Ready)
      → HoldsNumber o doc runs challenge c
      → (rs : List (Response o)) × Responses challenge xs rs × All (HasNumber o doc runs) rs
  Responses-sent challenge c [] holds = ([], tt, tt)
  Responses-sent challenge c (x ∷ xs) holds =
      let (s, made, _, _) =
        response_lem o doc runs x.secret x.k challenge c x.privkey x.secret_holds holds
          x.key_range.nonneg in
      let (rs, all, have) = Responses-sent challenge c xs holds in
      (record { number = some s; initialized = true } ∷ rs, (made, all), ((s, refl), have))

  Signers-of :
      (challenge : Challenge o) (xs : List Ready) (ks : List (PubKey o)) (cs : List (CommitPoint o))
      (rs : List (Response o))
      → Keys xs ks
      → Commits xs cs
      → Responses challenge xs rs
      → Signers o doc runs challenge ks cs rs
  Signers-of challenge [] [] [] [] a b c = tt
  Signers-of challenge (x ∷ xs) (k ∷ ks) (q ∷ qs) (r ∷ rs) (a, made) (b, bound) (c, answered) = (
    record {
      privkey = x.privkey;
      secret = x.secret;
      k = x.k;
      key_range = x.key_range;
      secret_holds = x.secret_holds;
      key_made = a;
      commit_made = b;
      response_made = c;
    },
    Signers-of challenge xs ks qs rs made bound answered,
  )
  Signers-of challenge [] (_ ∷ _) _ _ a b c = absurd a
  Signers-of challenge (_ ∷ _) [] _ _ a b c = absurd a
  Signers-of challenge [] [] (_ ∷ _) _ a b c = absurd b
  Signers-of challenge (_ ∷ _) (_ ∷ _) [] _ a b c = absurd b
  Signers-of challenge [] [] [] (_ ∷ _) a b c = absurd c
  Signers-of challenge (_ ∷ _) (_ ∷ _) (_ ∷ _) [] a b c = absurd c
