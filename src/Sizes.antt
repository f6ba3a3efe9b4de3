-- ===== src/Sizes.antt =====
-- src/libSchnorr/src/SchnorrInternal.h and include/Schnorr.h: the sizes of the encodings, and the
-- bytes that separate the hash functions.
use schnorr.Common.{ℕ}

abbrev pub priv_key_size : ℕ
priv_key_size = 32

abbrev pub pub_key_size : ℕ
pub_key_size = 33

abbrev pub signature_challenge_size : ℕ
signature_challenge_size = 32

abbrev pub signature_response_size : ℕ
signature_response_size = 32

abbrev pub commit_secret_size : ℕ
commit_secret_size = 32

abbrev pub commit_point_hash_size : ℕ
commit_point_hash_size = 32

abbrev pub commit_point_size : ℕ
commit_point_size = 33

abbrev pub challenge_size : ℕ
challenge_size = 32

abbrev pub response_size : ℕ
response_size = 32

-- `Schnorr::PUBKEY_COMPRESSED_SIZE_BYTES`
abbrev pub pubkey_compressed_size_bytes : ℕ
pubkey_compressed_size_bytes = 33

abbrev pub second_domain_separated_hash_function_byte : ℕ
second_domain_separated_hash_function_byte = 0x01

abbrev pub third_domain_separated_hash_function_byte : ℕ
third_domain_separated_hash_function_byte = 0x11
