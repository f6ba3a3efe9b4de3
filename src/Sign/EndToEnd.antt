-- ===== src/Sign/EndToEnd.antt =====
-- From `Schnorr::GenKeyPair` to `Schnorr::Verify` of src/libSchnorr/src/Schnorr.cpp, with the public key sent as bytes.
use schnorr.Common.{ℕ, ◌+◌, ◌<◌, ◌^◌, ◌≡◌, sym, ap, ◌∙◌, List, [], true, false}
use schnorr.Run.{returns, returns-injective}
use schnorr.OpenSsl.{OpenSsl}
use schnorr.OpenSsl.Laws.{Documented, NeverFails}
use schnorr.Keys.{PrivKey, PubKey, Signature, pub_key_serialize, pub_key_deserialize}
use schnorr.Keys.Order.{pub_key_order}
use schnorr.Serializable.Classes
use schnorr.Serializable.Classes.{deserialize-serialize}
use schnorr.Sign.{gen_key_pair, sign_slice}
use schnorr.Sign.KeyPair.{Draws, world_after, gen_key_pair-returns}
use schnorr.Sign.Sound.{sign_slice-Accepts}
use schnorr.Verify.{verify_slice}
use schnorr.Verify.Elements.{Accepts-element}
use schnorr.Verify.Complete.{verify_slice_complete}

module _ (o : OpenSsl) (doc : Documented o) (runs : NeverFails o doc.group doc.numbers) where
  open doc use {group, numbers, curve}

  -- Where `GenKeyPair` draws a number that is not zero among the first `fuel`, and gives a pair of keys,
  -- where `Schnorr::Sign` returns true with these keys, the random numbers behind them and any message,
  -- and where no call of OpenSSL fails and the ends of the slice and of the encoding fit an `unsigned
  -- int`: `PubKey::Serialize` writes the public key, `PubKey::Deserialize` reads it, both with the result
  -- true, and `Schnorr::Verify` accepts the signature of the slice under the key that is read.
  pub generated_signs_verifies :
      (draws : Draws o doc runs) (n fuel : ℕ) (w w' : o.World) (priv : PrivKey o) (key y : PubKey o)
      (message : List ℕ) (offset size rounds : ℕ) (result sig : Signature o) (v : o.World)
      (dst : List ℕ) (place : ℕ)
      → n < fuel
      → o.bn_is_zero (draws.number (world_after o doc runs draws n w)) ≡ false
      → gen_key_pair o fuel w ≡ returns (priv, key, w')
      → sign_slice o message offset size priv key rounds result w' ≡ returns (true, sig, v)
      → offset + size < 2 ^ 32
      → place + 33 < 2 ^ 32
      → (dst' : List ℕ) × (read : PubKey o) × (pub_key_serialize o key dst place
          ≡ returns (dst', true))
        × (pub_key_deserialize o y dst' place ≡ returns (read, true))
        × (verify_slice o message offset size sig read ≡ returns true)
  generated_signs_verifies draws n fuel w w' priv key y message offset size rounds result sig v dst
        place n_lt drawn generated signed small place_small =
      let (d, k, u, made, range, element) =
        gen_key_pair-returns o doc runs draws n fuel w n_lt drawn in
      let same = returns-injective (sym made ∙ generated) in
      let d_same : d ≡ priv = ap (λ x. x.0) same in
      let k_same : k ≡ key = ap (λ x. x.1) same in
      let accepts =
        sign_slice-Accepts o doc message offset size priv key (rw (← d_same) range.nonneg)
          (rw (← d_same, ← k_same) element) rounds result w' sig v signed in
      let (dst', read, written, _, got, equal) =
        deserialize-serialize o doc runs Classes.pub_key key y dst place accepts.key_finite
          place_small in
      let (_, _, eq, _, decides) = pub_key_order o doc runs read key in
      let met = decides.0 (returns-injective (sym eq ∙ equal)) in
      (
        dst',
        read,
        written,
        got,
        verify_slice_complete o doc runs message offset size sig read small
            (Accepts-element o doc [] message offset size sig key read met accepts),
      )
