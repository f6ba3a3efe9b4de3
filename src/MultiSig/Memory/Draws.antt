-- ===== src/MultiSig/Memory/Draws.antt =====
-- The constructor `CommitSecret()` of Memory.antt leaves what that by value leaves.
use schnorr.Common.{
  ℕ, zero, suc, ◌<◌, ◌≡◌, refl, ap, true, false, Option, some, Option-cases, Bool-cases, inl, inr,
  arith,
}
use schnorr.Run.{bad_alloc}
use schnorr.Run.Both.{Both, or_throw-Both, last-Both}
use schnorr.OpenSsl.{OpenSsl}
use schnorr.MultiSig.Objects.{NumberObject}
use schnorr.MultiSig.CommitSecret.{draw, generate}
use schnorr.MultiSig.Memory.{Memory, put, alloc, Left, draw_at, generate_at}
use schnorr.MultiSig.Memory.Frames.{
  Framed, Simulates, made, alloc-Framed, fresh-Framed, put-same, alloc-new,
}

module _ (o : OpenSsl) (m : Memory o) (own : Option ℕ) where
  -- The same object, and the same state of the random number generator.
  abbrev pub SimulatesDraw : Left o × o.World → NumberObject o × o.World → Type 0
  SimulatesDraw r x = Simulates o m own r.0 x.0 × (r.1 ≡ x.1)

  -- The number at `m.top` is new, and so far `n`.
  draw_at-draw :
      (fuel : ℕ) (n : Memory o) (b : o.Bignum) (w : o.World)
      → n.cells m.top ≡ b
      → m.top < n.top
      → Framed o m own (n, record { pointer = some m.top; initialized = false })
      → Both SimulatesDraw (draw_at o fuel n m.top w) (draw o fuel b w)
  unfolding draw_at draw
  draw_at-draw zero n b w same lt t = tt
  draw_at-draw (suc fuel) n b w same lt t =
      let (drawn, w') = o.bn_rand_range o.curve_order w in
      elim (Option-cases drawn) [
        | inl none_eq ↦ rw (none_eq, Both, draw_at, draw) ((ap (λ x. made o x false) same, t), refl)
        | inr (c, some_eq) ↦
            let next_Framed =
              fresh-Framed o m n own c (record { pointer = some m.top; initialized = false }) in
            elim (Bool-cases (o.bn_is_zero c)) [
              | inl zero_eq ↦
                  rw (some_eq, zero_eq, Both, draw_at, draw)
                    (draw_at-draw fuel (put o n m.top c) c w' (put-same o n m.top c) lt (
                      next_Framed (record { pointer = some m.top; initialized = false }) refl lt t))
              | inr ne_eq ↦
                  rw (some_eq, ne_eq, Both, draw_at, draw)
                    (
                      (
                        ap (λ x. made o x true) (put-same o n m.top c),
                        next_Framed (record { pointer = some m.top; initialized = true }) refl lt t,
                      ),
                      refl,
                    )
            ]
      ]

  pub generate_at-generate :
      (fuel : ℕ) (w : o.World) → Both SimulatesDraw (generate_at o fuel m w) (generate o fuel w)
  unfolding generate_at generate
  generate_at-generate fuel w = or_throw-Both SimulatesDraw o.bn_new bad_alloc _ _ (λ n.
      last-Both SimulatesDraw (draw_at o fuel (alloc o m n) m.top w) (draw o fuel n w) (
        draw_at-draw fuel (alloc o m n) n w (alloc-new o m n) (omega arith)
          (alloc-Framed o m own n false)))
