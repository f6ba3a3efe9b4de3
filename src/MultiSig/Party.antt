-- ===== src/MultiSig/Party.antt =====
-- The signers behind an aggregated key, without an order: src/libSchnorr/src/MultiSig.cpp, `AggregatePubKeys` and
-- `MultiSigVerify`.
use mathlib.Core.HLevel.{hedberg}
use mathlib.Core.List.{Perm}
use mathlib.Core.Quot
use mathlib.Core.Quot.{Quot}
use schnorr.Common.{ℕ, ◌+◌, ◌^◌, ◌<◌, ◌≡◌, ◌↔◌, sym, ap, ◌∙◌, List, [], ◌∷◌, map, some, true}
use schnorr.Run.{returns}
use schnorr.OpenSsl.{OpenSsl}
use schnorr.OpenSsl.Laws.{Documented, NeverFails}
use schnorr.OpenSsl.Group.{sum}
use schnorr.Keys.{PubKey, Signature}
use schnorr.MultiSig.Aggregate.{aggregate_pub_keys}
use schnorr.MultiSig.Sums.{aggregate_pub_keys-sum}
use schnorr.MultiSig.Order.{Elt-discrete, sum-perm}
use schnorr.Verify.{multi_sig_verify_slice}
use schnorr.Verify.Sound.{multi_sig_verify_slice_sound}
use schnorr.Verify.Complete.{multi_sig_verify_slice_complete}
use schnorr.Verify.Elements.{Accepts-element}

-- The keys of the signers, in no order.
abbrev pub Party : OpenSsl → Type 0
Party o = Quot (Perm {A = PubKey o})

module _ (o : OpenSsl) (doc : Documented o) where
  open doc use {group, curve}

  -- The element of the key that a party has together.
  unfoldable pub party_element : Party o → group.Elt
  party_element =
      Quot.lift (hedberg (Elt-discrete group)) (λ ks. sum group (map (λ k. curve.element k.p) ks))
        (λ ks ks' p. sum-perm group (λ k. curve.element k.p) ks ks' p)

  module _ (runs : NeverFails o doc.group doc.numbers) where
    -- `AggregatePubKeys` gives a key of the party's element, whatever the order in which it has the keys.
    pub aggregate_pub_keys-party_element :
        (ks : List (PubKey o)) (key : PubKey o)
        → aggregate_pub_keys o ks ≡ returns (some key)
        → curve.element key.p ≡ party_element (Quot.mk ks)
    unfolding party_element
    aggregate_pub_keys-party_element ks key h = aggregate_pub_keys-sum o doc runs ks key h

    accepted_under :
        (message : List ℕ) (offset size : ℕ) (sig : Signature o) (key key' : PubKey o)
        → offset + size < 2 ^ 32
        → curve.element key'.p ≡ curve.element key.p
        → multi_sig_verify_slice o message offset size sig key ≡ returns true
        → multi_sig_verify_slice o message offset size sig key' ≡ returns true
    accepted_under message offset size sig key key' small same h =
        multi_sig_verify_slice_complete o doc runs message offset size sig key' small (
          Accepts-element o doc (0x11 ∷ []) message offset size sig key key' same
            (multi_sig_verify_slice_sound o doc message offset size sig key h))

    -- Where `AggregatePubKeys` gives keys for two lists of the same party, that is the same signers in
    -- any order, `MultiSigVerify` accepts a signature of a slice under the one key exactly where it
    -- accepts it under the other, where no call of OpenSSL fails and the end of the slice fits an
    -- `unsigned int`.
    pub multi_sig_verify-Party :
        (ks ks' : List (PubKey o)) (key key' : PubKey o) (message : List ℕ) (offset size : ℕ)
        (sig : Signature o)
        → ◌≡◌ {A = Party o} (Quot.mk ks) (Quot.mk ks')
        → aggregate_pub_keys o ks ≡ returns (some key)
        → aggregate_pub_keys o ks' ≡ returns (some key')
        → offset + size < 2 ^ 32
        → (multi_sig_verify_slice o message offset size sig key ≡ returns true)
          ↔ (multi_sig_verify_slice o message offset size sig key' ≡ returns true)
    multi_sig_verify-Party ks ks' key key' message offset size sig party k_eq k'_eq small =
        let same : curve.element key'.p ≡ curve.element key.p =
          aggregate_pub_keys-party_element ks' key' k'_eq
          ∙ ap party_element (sym party)
          ∙ sym (aggregate_pub_keys-party_element ks key k_eq) in
        (
          accepted_under message offset size sig key key' small same,
          accepted_under message offset size sig key' key small (sym same),
        )
