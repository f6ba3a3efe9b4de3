-- ===== src/Tests/Nonces.antt =====
-- The theorems on nonces and on the length of what is written, at numbers of the small library.
use schnorr.Common.{ℕ, ◌+◌, ◌^◌, ◌<◌, ◌≡◌, refl, List, [], ◌∷◌, some, length, arith}
use schnorr.Run.{returns}
use schnorr.Common.Bytes.{be}
use schnorr.Sign.{sign_slice}
use schnorr.Sign.Safe.{sign_slice-faults_not}
use schnorr.Run.{Outcome}
use schnorr.Common.{◌≢◌}
use schnorr.Tests.Examples.{priv_one, key_one, sig_blank}
use schnorr.Nonce.{Drawn, generate_dsa_nonce, fill_bytes, round_digest}
use schnorr.Nonce.Bounds.{
  IsNonce, generate_dsa_nonce_ends, generate_dsa_nonce-IsNonce, generate_dsa_nonce-returns,
}
use schnorr.Tests.Octets.{octets, length-octets-le}
use schnorr.Tests.Toy.{toy, toy_doc, toy_runs, toy_nonce_hash}
use schnorr.Tests.Examples.{message_one}

three_short : length (octets 3) + 8 < 2 ^ 32
three_short = omega (arith, length-octets-le 3 1 (omega arith))

generate_dsa_nonce_ends_example :
    (x : Drawn toy) × (generate_dsa_nonce toy 3 1 message_one tt (1 ∷ []) ≡ returns x)
generate_dsa_nonce_ends_example =
    generate_dsa_nonce_ends toy toy_nonce_hash 3 1 message_one tt (1 ∷ []) three_short

nonce_one : generate_dsa_nonce toy 3 1 message_one tt (1 ∷ []) ≡ returns (some 1, [])
unfolding generate_dsa_nonce fill_bytes round_digest octets be
nonce_one = refl

generate_dsa_nonce-IsNonce_example : IsNonce toy toy_doc 1
generate_dsa_nonce-IsNonce_example =
    generate_dsa_nonce-IsNonce toy toy_doc 1 message_one tt (1 ∷ []) 1 [] nonce_one

generate_dsa_nonce-returns_example :
    (k : ℕ) × (w : List ℕ) × (generate_dsa_nonce toy 3 1 message_one tt (1 ∷ [])
      ≡ returns (some k, w))
    × IsNonce toy toy_doc k
generate_dsa_nonce-returns_example =
    generate_dsa_nonce-returns toy toy_doc 1 message_one tt (1 ∷ []) toy_runs (omega arith)

-- The slice of two bytes does not lie inside the message of one.
sign_slice-faults_not_example :
    sign_slice toy message_one 0 2 priv_one key_one 1 sig_blank (1 ∷ []) ≢ Outcome.faults
sign_slice-faults_not_example =
    sign_slice-faults_not toy toy_nonce_hash three_short message_one 0 2 priv_one key_one
      (omega arith) 1 sig_blank (1 ∷ [])
