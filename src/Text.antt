-- ===== src/Text.antt =====
-- The conversions between keys, signatures and texts: src/libSchnorr/src/SchnorrInternal.h,
-- Schnorr_PrivKey.cpp, Schnorr_PubKey.cpp, Schnorr_Signature.cpp, MultiSig_CommitPointHash.cpp and
-- `Schnorr::PrintPoint` of Schnorr.cpp. A text is the list of its character codes.
pub mod RoundTrip
pub mod Errors
pub mod Streams
use Prim.Native.Char.{code}
use Prim.Native.String.{String}
use schnorr.Common.{ℕ, List, [], ◌∷◌, ◌++◌, Option, none, some, ◌==◌, not, length}
use schnorr.Run.{
  Outcome, Run, returns, invalid_argument, next, finish, call, or_throw, throw_if, or_return,
  no_except, ◌>>=◌, ◌>>◌,
}
use schnorr.OpenSsl.{OpenSsl}
use schnorr.Boost.{Boost}
use schnorr.Keys.{PrivKey, PubKey, Signature, priv_key_from_bytes, pub_key_from_bytes}
use schnorr.MultiSig.CommitPointHash.{CommitPointHash}
use schnorr.Serializable.{
  SerializableCrypto, pub_key_serializable, signature_serializable, commit_point_hash_serializable,
}

abbrev pub codes : String → List ℕ
codes String.[] = []
codes (String.◌∷◌ c s) = code c ∷ codes s

-- `SerializableCryptoToHexStr`: `true` and the text, or `false`. The result of `Serialize` is not read.
unfoldable pub serializable_crypto_to_hex_str :
    {T : Type 0} → Boost → SerializableCrypto T → T → Outcome (Option (List ℕ))
serializable_crypto_to_hex_str boost t input =
    finish do (tmp, _) ← call (t.serialize input [] 0); next (boost.hex tmp)

-- The conversions to `std::string`.
unfoldable pub to_string : {T : Type 0} → Boost → SerializableCrypto T → T → Outcome (List ℕ)
to_string boost t input = finish do
  output ← call (serializable_crypto_to_hex_str boost t input)
  text ← or_return output []
  next (codes "0x" ++ text)

-- The operators `<<`, by the text that the stream has.
unfoldable pub stream_out :
    {T : Type 0} → Boost → SerializableCrypto T → List ℕ → T → Outcome (List ℕ)
stream_out boost t os input = finish do
  output ← call (serializable_crypto_to_hex_str boost t input)
  text ← or_return output os
  next (os ++ (codes "0x" ++ text))

module _ (o : OpenSsl) (boost : Boost) where
  unfoldable pub pub_key_stream_out : List ℕ → PubKey o → Outcome (List ℕ)
  unfolding stream_out
  pub_key_stream_out os key = stream_out boost (pub_key_serializable o) os key

  unfoldable pub signature_stream_out : List ℕ → Signature o → Outcome (List ℕ)
  unfolding stream_out
  signature_stream_out os sig = stream_out boost (signature_serializable o) os sig

  unfoldable pub pub_key_to_string : PubKey o → Outcome (List ℕ)
  unfolding to_string
  pub_key_to_string key = to_string boost (pub_key_serializable o) key

  unfoldable pub signature_to_string : Signature o → Outcome (List ℕ)
  unfolding to_string
  signature_to_string sig = to_string boost (signature_serializable o) sig

  unfoldable pub commit_point_hash_to_string : CommitPointHash o → Outcome (List ℕ)
  unfolding to_string
  commit_point_hash_to_string hash = to_string boost (commit_point_hash_serializable o) hash

  -- `hash<PubKey>::operator()`, which is `noexcept`.
  unfoldable pub pub_key_hash : PubKey o → Outcome ℕ
  pub_key_hash key = no_except (
      finish do
        output ← call (serializable_crypto_to_hex_str boost (pub_key_serializable o) key)
        text ← or_return output 0
        next (boost.hash_combine 0 text))

  unfoldable pub get_priv_key_from_string : List ℕ → Outcome (PrivKey o)
  get_priv_key_from_string key = finish do
    throw_if (not (length key == 64)) invalid_argument
    key_v ← or_throw (boost.unhex key) invalid_argument
    call (priv_key_from_bytes o key_v 0)

  unfoldable pub get_pub_key_from_string : List ℕ → Outcome (PubKey o)
  get_pub_key_from_string key = finish do
    throw_if (not (length key == 66)) invalid_argument
    key_v ← or_throw (boost.unhex key) invalid_argument
    call (pub_key_from_bytes o key_v 0)

  -- `PrintPoint`. A step that fails leaves the text that the result begins with.
  unfoldable pub print_point : o.Point → Outcome (List ℕ)
  print_point point = finish do
    x_new ← or_return o.bn_new (codes "invalid point")
    y_new ← or_return o.bn_new (codes "invalid point")
    (x, y) ← or_return (o.ec_point_get_affine_coordinates point) (codes "invalid point")
    x_str ← or_return (o.bn_bn2hex x) (codes "invalid point")
    y_str ← or_return (o.bn_bn2hex y) (codes "invalid point")
    next (codes "x=" ++ (x_str ++ (codes " y=" ++ y_str)))
