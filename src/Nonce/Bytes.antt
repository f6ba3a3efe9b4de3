-- ===== src/Nonce/Bytes.antt =====
-- src/libSchnorr/src/generate_dsa_nonce.c: the loop that fills `k_bytes`.
use schnorr.Common.{
  some, ℕ, zero, suc, ◌+◌, ◌^◌, ◌≤◌, ◌<◌, ◌≡◌, List, ◌++◌, none, ◌⊎◌, inl, inr, arith, ltb, add32,
  length, take, length-append, length-take, ltb→lt, ltb→le, Bool-cases, Option-cases,
}
use schnorr.Run.{Outcome, Run, returns, stop, next}
use schnorr.OpenSsl.{OpenSsl}
use schnorr.OpenSsl.Laws.{Sha512Laws}
use schnorr.Nonce.{Drawn, fill_bytes, todo_of, round_digest}

todo-bounds :
    (num done : ℕ)
    → done < num
    → (0 < todo_of num done) × (todo_of num done ≤ 64) × (done + todo_of num done ≤ num)
todo-bounds num done h = ground arith

module _ (o : OpenSsl) (sha : Sha512Laws o) where
  -- How the loop ends: it fails, or it has filled the buffer.
  abbrev pub Filled : ℕ → Run (Drawn o) (List ℕ × o.World) → Type 0
  Filled num run =
      ((v : o.World) × (run ≡ stop (returns (none, v))))
      ⊎ ((bs : List ℕ) × (v : o.World) × (run ≡ next (bs, v)) × (length bs ≡ num))

  -- A round copies bytes of the digest alone, up to the end of the buffer.
  length-round :
      (num done : ℕ) (bs pb m rb : List ℕ)
      → length bs ≡ done
      → done < num
      → length (bs ++ take (todo_of num done) (round_digest o done pb m rb))
        ≡ done + todo_of num done
  unfolding round_digest
  length-round num done bs pb m rb len more =
      let (_, small, _) = todo-bounds num done more in
      omega (
        arith,
        length-append bs (take (todo_of num done) (round_digest o done pb m rb)),
        length-take (todo_of num done) (round_digest o done pb m rb),
        sha.length-final _,
      )

  pub fill_bytes-Filled :
      (fuel num done : ℕ) (bs pb m : List ℕ) (w : o.World)
      → length bs ≡ done
      → done ≤ num
      → num < done + fuel
      → num < 2 ^ 32
      → Filled num (fill_bytes o fuel num done bs pb m w)
  unfolding fill_bytes
  fill_bytes-Filled zero num done bs pb m w len low enough small = absurd (omega arith)
  fill_bytes-Filled (suc fuel) num done bs pb m w len low enough small =
      elim (Bool-cases (ltb done num)) [
        | inr e ↦ inr (bs, w, rw (e, fill_bytes), (let past = ltb→le done num e in omega arith))
        | inl e ↦ elim (Option-cases (o.rand_bytes 64 w).0) [
          | inl failed ↦ inl ((o.rand_bytes 64 w).1, rw (e, failed, fill_bytes))
          | inr (rb, drawn) ↦
              let more = ltb→lt done num e in
              let (pos, _, fits) = todo-bounds num done more in
              let no_wrap : add32 done (todo_of num done) ≡ done + todo_of num done = omega arith in
              let rest =
                fill_bytes-Filled fuel num (done + todo_of num done)
                  (bs ++ take (todo_of num done) (round_digest o done pb m rb)) pb m
                  (o.rand_bytes 64 w).1 (length-round num done bs pb m rb len more) fits
                  (omega arith) small in
              rw (e, drawn, no_wrap, fill_bytes) rest
        ]
      ]

next_stops_not : {R A : Type 0} (a : A) (r : Outcome R) → ¬ (◌≡◌ {A = Run R A} (next a) (stop r))
next_stops_not a r h = cc

-- The loop does not fail where the random bytes are there.
pub fill_bytes_fails_not :
    (o : OpenSsl)
    (random : (n : ℕ) (w : o.World) → (bs : List ℕ) × ((o.rand_bytes n w).0 ≡ some bs))
    (fuel num done : ℕ) (bs pb m : List ℕ) (w v : o.World)
    → ¬ (fill_bytes o fuel num done bs pb m w ≡ stop (returns (none, v)))
unfolding fill_bytes
fill_bytes_fails_not o random zero num done bs pb m w v h = cc
fill_bytes_fails_not o random (suc fuel) num done bs pb m w v h = elim (Bool-cases (ltb done num)) [
  | inr e ↦ next_stops_not (bs, w) (returns (none, v)) (rw (e, fill_bytes) at h)
  | inl e ↦
      let (rb, drawn) = random 64 w in
      fill_bytes_fails_not o random fuel num (add32 done (todo_of num done))
        (bs ++ take (todo_of num done) (round_digest o done pb m rb)) pb m (o.rand_bytes 64 w).1 v
        (rw (e, drawn, fill_bytes) at h)
]
