-- ===== src/Text/Errors.antt =====
-- The conversions of keys and of hashes to and from text, on input that they do not take.
use schnorr.Common.{
  ℕ, ◌≡◌, ◌≢◌, refl, ap, ◌∙◌, List, [], ◌∷◌, false, Option, some, none, not, length, ◌==◌, ne→==,
  arith, ◌⊎◌, inl, inr, Bool-cases,
}
use schnorr.Run.{
  Run, returns, throws, terminates, invalid_argument, finish, throw_if, or_throw, ◌>>=◌, ◌>>◌,
}
use schnorr.OpenSsl.{OpenSsl}
use schnorr.Boost.{Boost, HexLaws}
use schnorr.EcPointSerialize
use schnorr.Keys.{PubKey, pub_key_serialize}
use schnorr.MultiSig.Objects.{number_serialize}
use schnorr.MultiSig.CommitPointHash
use schnorr.MultiSig.CommitPointHash.{CommitPointHash}
use schnorr.Text.{
  codes, to_string, serializable_crypto_to_hex_str, commit_point_hash_to_string, pub_key_hash,
  get_priv_key_from_string, get_pub_key_from_string,
}

refuse :
    {R A : Type 0} (text : List ℕ) (n : ℕ) (bytes : Option A) (f : A → Run R R)
    → (length text ≢ n) ⊎ (bytes ≡ none)
    → finish (
        throw_if (not (length text == n)) invalid_argument
        >> (or_throw bytes invalid_argument >>= f))
      ≡ throws invalid_argument
refuse text n bytes f (inl h) = rw (ne→== (length text) n h)
refuse text n bytes f (inr e) = elim (Bool-cases (length text == n)) [
  | inl same ↦ rw (same, e)
  | inr other ↦ rw other
]

empty_text : (xs : List ℕ) → length xs ≡ 0 → xs ≡ []
empty_text [] h = refl
empty_text (x ∷ xs) h = absurd (omega arith)

module _ (o : OpenSsl) (boost : Boost) where
  -- `GetPrivKeyFromString` and `GetPubKeyFromString` throw `std::invalid_argument` for a text that has not 64
  -- or 66 characters, or that `unhex` does not take.
  pub from_string-refuses :
      (priv pub_text : List ℕ)
      → (length priv ≢ 64) ⊎ (boost.unhex priv ≡ none)
      → (length pub_text ≢ 66) ⊎ (boost.unhex pub_text ≡ none)
      → (get_priv_key_from_string o boost priv ≡ throws invalid_argument)
        × (get_pub_key_from_string o boost pub_text ≡ throws invalid_argument)
  unfolding get_priv_key_from_string get_pub_key_from_string
  from_string-refuses priv pub_text h k =
      (refuse priv 64 (boost.unhex priv) _ h, refuse pub_text 66 (boost.unhex pub_text) _ k)

  -- `hash<PubKey>` is `noexcept`, but the serialization that it calls throws where there is no memory for a
  -- context: the program is terminated, in place of the seed that the
  -- function returns for other failures.
  pub pub_key_hash-terminates :
      (key : PubKey o) → o.bn_ctx_new ≡ none → pub_key_hash o boost key ≡ terminates
  unfolding pub_key_hash serializable_crypto_to_hex_str pub_key_serialize
      EcPointSerialize.set_number
  pub_key_hash-terminates key e = rw e

  -- The text of a `CommitPointHash` that is not initialized is "0x": the failure of `Serialize` is not seen.
  pub commit_point_hash_to_string-blank :
      (hash : CommitPointHash o) (hex : HexLaws boost) (text : List ℕ)
      → hash.initialized ≡ false
      → boost.hex [] ≡ some text
      → commit_point_hash_to_string o boost hash ≡ returns (codes "0x")
  unfolding commit_point_hash_to_string to_string serializable_crypto_to_hex_str
      CommitPointHash.serialize number_serialize
  commit_point_hash_to_string-blank hash hex text off hexed =
      let none_written : text ≡ [] =
        empty_text text (omega (arith, hex.length-hex [] text hexed)) in
      let hexed' : boost.hex [] ≡ some [] = hexed ∙ ap some none_written in rw (off, hexed')
