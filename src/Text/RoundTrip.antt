-- ===== src/Text/RoundTrip.antt =====
-- The conversions of keys to hexadecimal text and back.
use schnorr.Common.{
  Bool, ℕ, ◌≡◌, ◌≢◌, refl, sym, ap, ◌∙◌, List, [], true, false, some, not, length, ◌==◌, arith,
}
use schnorr.Run.{
  finish-call, Exception, Outcome, returns, invalid_argument, bad_alloc, finish, throw_if, ◌>>◌,
  Run, call-step, or_throw-step, call-returns, returns-injective,
}
use schnorr.OpenSsl.{OpenSsl}
use schnorr.OpenSsl.Laws.{Documented, NeverFails}
use schnorr.Boost.{Boost, HexLaws}
use schnorr.Keys.{
  PrivKey, PubKey, pub_key_deserialize, priv_key_from_bytes, pub_key_from_bytes, priv_key_eq,
  pub_key_eq,
}
use schnorr.Serializable.{SerializableCrypto, priv_key_serializable, pub_key_serializable}
use schnorr.Serializable.Implements.{Fits, priv_key-Contract, pub_key-Contract}
use schnorr.Serializable.Classes
use schnorr.Serializable.Octets.{serialize-IsBytes}
use schnorr.Text.{serializable_crypto_to_hex_str, get_priv_key_from_string, get_pub_key_from_string}

throw_if-step :
    {R : Type 0} (b : Bool) (e : Exception) (k : Run R R) {out : Outcome R}
    → b ≡ false
    → finish k ≡ out
    → finish (throw_if b e >> k) ≡ out
throw_if-step b e k h r = rw h r

same_length : (text : List ℕ) (n : ℕ) → length text ≡ n → not (length text == n) ≡ false
same_length text n h = ground arith

module _ (o : OpenSsl) (doc : Documented o) (runs : NeverFails o doc.group doc.numbers)
    (boost : Boost) (hex : HexLaws boost) where
  open doc use {group, numbers, curve}

  -- The bytes behind a hexadecimal text.
  hex_of :
      {T : Type 0} (t : SerializableCrypto T) (x : T) (dst text : List ℕ)
      → t.serialize x [] 0 ≡ returns (dst, true)
      → serializable_crypto_to_hex_str boost t x ≡ returns (some text)
      → boost.hex dst ≡ some text
  unfolding serializable_crypto_to_hex_str
  hex_of t x dst text written h =
      let (pair, made, h1) = call-returns (t.serialize x [] 0) _ (some text) h in
      let same = returns-injective (sym made ∙ written) in
      ap (λ y. boost.hex y.0) (sym same) ∙ returns-injective h1

  -- The text that `SerializableCryptoToHexStr` gives for a private key of at most 32 bytes that is not
  -- negative is one that `GetPrivKeyFromString` reads as a key that `operator==` finds equal, where no call
  -- of OpenSSL fails.
  pub get_priv_key_from_string-hex :
      (x : PrivKey o) (text : List ℕ)
      → Fits o doc runs x.d
      → serializable_crypto_to_hex_str boost (priv_key_serializable o) x ≡ returns (some text)
      → (read : PrivKey o) × (get_priv_key_from_string o boost text ≡ returns read)
        × (priv_key_eq o read x ≡ true)
  unfolding get_priv_key_from_string priv_key_from_bytes
  get_priv_key_from_string-hex x text fits h =
      let (d, new) = runs.bn_new in
      let blank : PrivKey o = record { d = d } in
      let contract = priv_key-Contract o doc runs in
      let (dst, read, written, len, got, equal) =
        contract.round_trip x blank [] 0 fits (omega arith) in
      let hexed = hex_of (priv_key_serializable o) x dst text written h in
      let bytes = serialize-IsBytes o numbers [] 0 tt Classes.priv_key x dst true written in
      let text_len : length text ≡ 64 = omega (arith, hex.length-hex dst text hexed, len) in
      (
        read,
        throw_if-step (not (length text == 64)) _ _ (same_length text 64 text_len) (
            or_throw-step (boost.unhex text) invalid_argument _ (hex.unhex_hex dst text bytes hexed)
              (finish-call (priv_key_from_bytes o dst 0)
                ∙ or_throw-step o.bn_new bad_alloc _ new
                    (ap (λ y. returns y.0) (returns-injective got)))),
        equal,
      )

  -- The text that `SerializableCryptoToHexStr` gives for a finite public key is one that
  -- `GetPubKeyFromString` reads as a key that `operator==` finds equal, where no call of OpenSSL fails.
  pub get_pub_key_from_string-hex :
      (x : PubKey o) (text : List ℕ)
      → curve.element x.p ≢ group.identity
      → serializable_crypto_to_hex_str boost (pub_key_serializable o) x ≡ returns (some text)
      → (read : PubKey o) × (get_pub_key_from_string o boost text ≡ returns read)
        × (pub_key_eq o read x ≡ returns true)
  unfolding get_pub_key_from_string pub_key_from_bytes
  get_pub_key_from_string-hex x text finite h =
      let (p, new) = runs.point_new in
      let blank : PubKey o = record { p = p } in
      let contract = pub_key-Contract o doc runs in
      let (dst, read, written, len, got, equal) =
        contract.round_trip x blank [] 0 finite (omega arith) in
      let hexed = hex_of (pub_key_serializable o) x dst text written h in
      let bytes = serialize-IsBytes o numbers [] 0 tt Classes.pub_key x dst true written in
      let text_len : length text ≡ 66 = omega (arith, hex.length-hex dst text hexed, len) in
      (
        read,
        throw_if-step (not (length text == 66)) _ _ (same_length text 66 text_len) (
            or_throw-step (boost.unhex text) invalid_argument _ (hex.unhex_hex dst text bytes hexed)
              (finish-call (pub_key_from_bytes o dst 0)
                ∙ or_throw-step o.ec_point_new bad_alloc _ new
                    (call-step (pub_key_deserialize o blank dst 0) _ got refl))),
        equal,
      )
