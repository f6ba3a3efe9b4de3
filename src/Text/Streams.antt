-- ===== src/Text/Streams.antt =====
-- The output operators of Schnorr_PubKey.cpp and Schnorr_Signature.cpp in src/libSchnorr/src, against the
-- conversions to `std::string`.
use schnorr.Common.{ℕ, List, ◌++◌, ◌≡◌, refl, append-nil, Option, none, some, [], sym, ap}
use schnorr.Run.{
  Outcome, returns, throws, faults, out_of_fuel, terminates, finish, call, next, or_return, ◌>>=◌,
}
use schnorr.OpenSsl.{OpenSsl}
use schnorr.Boost.{Boost}
use schnorr.Keys.{PubKey, Signature}
use schnorr.Serializable.{SerializableCrypto}
use schnorr.Text.{
  serializable_crypto_to_hex_str, to_string, stream_out, pub_key_to_string, pub_key_stream_out,
  signature_to_string, signature_stream_out, codes,
}

-- A stream behind which a conversion's text is written.
abbrev pub written : Outcome (List ℕ) → List ℕ → Outcome (List ℕ)
written text os = finish do output ← call text; next (os ++ output)

behind :
    (m : Outcome (Option (List ℕ))) (os : List ℕ)
    → finish
        (call m >>= (λ output. or_return output os >>= (λ text. next (os ++ (codes "0x" ++ text)))))
      ≡ written
          (finish
            (call m >>= (λ output. or_return output [] >>= (λ text. next (codes "0x" ++ text)))))
          os
behind (returns none) os = sym (ap returns (append-nil os))
behind (returns (some text)) os = refl
behind (throws e) os = refl
behind faults os = refl
behind out_of_fuel os = refl
behind terminates os = refl

same_text :
    {T : Type 0} (boost : Boost) (t : SerializableCrypto T) (os : List ℕ) (x : T)
    → stream_out boost t os x ≡ written (to_string boost t x) os
unfolding stream_out to_string
same_text boost t os x = behind (serializable_crypto_to_hex_str boost t x) os

-- `operator<<` of public keys and signatures writes what the conversion to `std::string` gives.
pub stream_out-to_string :
    (o : OpenSsl) (boost : Boost) (os : List ℕ) (key : PubKey o) (sig : Signature o)
    → (pub_key_stream_out o boost os key ≡ written (pub_key_to_string o boost key) os)
      × (signature_stream_out o boost os sig ≡ written (signature_to_string o boost sig) os)
unfolding pub_key_stream_out pub_key_to_string signature_stream_out signature_to_string
stream_out-to_string o boost os key sig = (same_text boost _ os key, same_text boost _ os sig)
