-- ===== src/Nonce.antt =====
-- src/libSchnorr/src/generate_dsa_nonce.c: `BN_generate_dsa_nonce`. `out` is the result, and `return 0` is
-- `none`. The buffer `k_bytes` is the bytes that have been copied into it, from its start. What is cleared and
-- freed behind the label `err` is not read again.
pub mod Bytes
pub mod Bounds
use schnorr.Common.{
  ℕ, zero, suc, ◌+◌, ◌-◌, List, [], ◌++◌, Bool, Option, none, some, not, ltb, add32, length, take,
  replicate, if◌then◌else◌,
}
use schnorr.Run.{Outcome, Run, out_of_fuel, next, stop, finish, return_if, or_return, ◌>>=◌, ◌>>◌}
use schnorr.OpenSsl.{OpenSsl}

-- `SHA512_DIGEST_LENGTH`, and the sizes of `random_bytes` and `private_bytes`
abbrev pub sha512_digest_length : ℕ
sha512_digest_length = 64

abbrev pub random_bytes_size : ℕ
random_bytes_size = 64

abbrev pub private_bytes_size : ℕ
private_bytes_size = 96

-- `todo`, at most a digest.
abbrev pub todo_of : ℕ → ℕ → ℕ
todo_of num_k_bytes done =
    if ltb sha512_digest_length (num_k_bytes - done)
    then sha512_digest_length
    else num_k_bytes - done

module _ (o : OpenSsl) where
  -- The result of a call, with the state of the generator.
  abbrev pub Drawn : Type 0
  Drawn = Option o.Bignum × o.World

  -- The digest of one round.
  unfoldable pub round_digest : ℕ → List ℕ → List ℕ → List ℕ → List ℕ
  round_digest done private_bytes message random_bytes =
      let first = o.sha512_update o.sha512_init (o.unsigned_bytes done) in
      let second = o.sha512_update first private_bytes in
      let third = o.sha512_update second message in
      o.sha512_final (o.sha512_update third random_bytes)

  -- The loop, from the bytes that `done` counts.
  unfoldable pub fill_bytes :
      ℕ → ℕ → ℕ → List ℕ → List ℕ → List ℕ → o.World → Run Drawn (List ℕ × o.World)
  fill_bytes zero num_k_bytes done k_bytes private_bytes message w = stop out_of_fuel
  fill_bytes (suc fuel) num_k_bytes done k_bytes private_bytes message w =
      let (drawn, w') = o.rand_bytes random_bytes_size w in
      elim (ltb done num_k_bytes) [
        | Bool.false ↦ next (k_bytes, w)
        | Bool.true ↦ elim drawn [
          | none ↦ stop (Outcome.returns (none, w'))
          | some random_bytes ↦
              let todo = todo_of num_k_bytes done in
              let digest = round_digest done private_bytes message random_bytes in
              fill_bytes fuel num_k_bytes (add32 done todo) (k_bytes ++ take todo digest)
                private_bytes message w'
        ]
      ]

  unfoldable pub generate_dsa_nonce :
      o.Bignum → o.Bignum → List ℕ → o.BnCtx → o.World → Outcome Drawn
  generate_dsa_nonce range priv message ctx w = finish do
    let num_k_bytes = add32 (o.bn_num_bytes range) 8
    return_if (not (o.openssl_malloc num_k_bytes)) (none, w)
    let words = o.bn_words priv
    return_if (ltb private_bytes_size (length words)) (none, w)
    let private_bytes = words ++ replicate (private_bytes_size - length words) 0
    (k_bytes, w') ← fill_bytes (suc num_k_bytes) num_k_bytes 0 [] private_bytes message w
    unreduced ← or_return (o.bn_bin2bn k_bytes) (none, w')
    k ← or_return (o.bn_mod unreduced range ctx) (none, w')
    next (some k, w')
