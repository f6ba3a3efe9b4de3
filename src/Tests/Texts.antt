-- ===== src/Tests/Texts.antt =====
-- A conversion to hexadecimal digits, and the theorems on texts at keys of the small library.
use schnorr.Common.{
  ℕ, ◌+◌, ◌-◌, ◌*◌, ◌/◌, ◌%◌, ◌<◌, ◌≡◌, refl, List, [], ◌∷◌, Option, some, none, true, length, ltb,
  if◌then◌else◌, All, arith, replicate, ◌++◌, subst,
}
use mathlib.Core.Option.{some-injective}
use schnorr.Common.Bytes.{be}
use schnorr.Run.{returns}
use schnorr.Boost.{Boost, HexLaws}
use schnorr.Serializable.{priv_key_serializable, pub_key_serializable}
use schnorr.BignumSerialize.{set_number, put_padded}
use schnorr.EcPointSerialize
use schnorr.Keys.{PubKey, pub_key_eq, priv_key_serialize, pub_key_serialize}
use schnorr.Text.{serializable_crypto_to_hex_str, get_pub_key_from_string}
use schnorr.Text.RoundTrip.{get_pub_key_from_string-hex}
use schnorr.Tests.Octets.{octets}
use schnorr.Tests.Toy.{toy, toy_doc, toy_runs, one, tri_encode}
use schnorr.Tests.Examples.{priv_one, key_one}

-- The character code of a digit, and back.
abbrev digit : ℕ → ℕ
digit d = if ltb d 10 then 48 + d else 55 + d

abbrev digit_value : ℕ → ℕ
digit_value c = if ltb c 58 then c - 48 else c - 55

digit_value-digit : (d : ℕ) → d < 16 → digit_value (digit d) ≡ d
digit_value-digit d h = ground arith

abbrev to_hex : List ℕ → List ℕ
to_hex [] = []
to_hex (b ∷ bs) = digit (b / 16) ∷ digit (b % 16) ∷ to_hex bs

abbrev of_hex : List ℕ → Option (List ℕ)
of_hex [] = some []
of_hex (a ∷ []) = none
of_hex (a ∷ b ∷ text) = elim (of_hex text) [
  | none ↦ none
  | some bs ↦ some ((digit_value a * 16 + digit_value b) ∷ bs)
]

length-to_hex : (bs : List ℕ) → length (to_hex bs) ≡ 2 * length bs
length-to_hex [] = refl
length-to_hex (b ∷ bs) = let rest = length-to_hex bs in omega arith

of_hex-to_hex : (bs : List ℕ) → All (λ b. b < 256) bs → of_hex (to_hex bs) ≡ some bs
of_hex-to_hex [] h = refl
of_hex-to_hex (b ∷ bs) (lt, all) =
    let rest = of_hex-to_hex bs all in
    let high = digit_value-digit (b / 16) (omega arith) in
    let low = digit_value-digit (b % 16) (omega arith) in
    let whole : b / 16 * 16 + b % 16 ≡ b = omega arith in rw (rest, high, low, whole)

abbrev toy_boost : Boost
toy_boost = record {
  hex = λ bs. some (to_hex bs);
  unhex = of_hex;
  hash_combine = λ seed text. seed + length text;
}

abbrev toy_HexLaws : HexLaws toy_boost
toy_HexLaws = record {
  length-hex =
      λ bs text h. subst (λ t. length t ≡ 2 * length bs) (some-injective _ _ h) (length-to_hex bs);
  unhex_hex = λ bs text all h.
      subst (λ t. of_hex t ≡ some bs) (some-injective _ _ h) (of_hex-to_hex bs all);
}

abbrev text_one : List ℕ
text_one = to_hex (replicate 31 0 ++ (1 ∷ []))

abbrev pub_text_one : List ℕ
pub_text_one = to_hex (tri_encode one)

one_hex :
    serializable_crypto_to_hex_str toy_boost (priv_key_serializable toy) priv_one
    ≡ returns (some text_one)
unfolding serializable_crypto_to_hex_str priv_key_serialize set_number put_padded octets
one_hex = refl

pub_one_hex :
    serializable_crypto_to_hex_str toy_boost (pub_key_serializable toy) key_one
    ≡ returns (some pub_text_one)
unfolding serializable_crypto_to_hex_str pub_key_serialize EcPointSerialize.set_number set_number
    put_padded octets be
pub_one_hex = refl

get_pub_key_from_string-hex_example :
    (read : PubKey toy) × (get_pub_key_from_string toy toy_boost pub_text_one ≡ returns read)
    × (pub_key_eq toy read key_one ≡ returns true)
get_pub_key_from_string-hex_example =
    get_pub_key_from_string-hex toy toy_doc toy_runs toy_boost toy_HexLaws key_one pub_text_one
      (λ e. cc) pub_one_hex
