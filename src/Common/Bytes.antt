-- ===== src/Common/Bytes.antt =====
-- The number that a big-endian byte string stands for.
use schnorr.Common.Lists.{length, replicate, length-append, All}
use Prim.Native.Nat.{ℕ, zero, suc, ◌+◌, ◌*◌, ◌^◌, ◌<◌}
use mathlib.Core.Path.{◌≡◌, refl}
use mathlib.Core.List.{List, [], ◌∷◌, ◌++◌}
use native.Mathlib.Omega.{arith}
use native.Mathlib.Nat.{pow-suc, pow-zero}

unfoldable pub be : List ℕ → ℕ
be [] = 0
be (x ∷ xs) = x * 256 ^ length xs + be xs

pub pow-add : (b m n : ℕ) → b ^ (m + n) ≡ b ^ m * b ^ n
pow-add b zero n = grind (arith, pow-zero b)
pow-add b (suc m) n =
    let e : suc m + n ≡ suc (m + n) = omega arith in
    rw (e, pow-suc b (m + n), pow-suc b m) (grind (arith, pow-add b m n))

pub be-append : (xs ys : List ℕ) → be (xs ++ ys) ≡ be xs * 256 ^ length ys + be ys
unfolding be
be-append [] ys = omega arith
be-append (x ∷ xs) ys =
    rw (be-append xs ys, length-append xs ys, pow-add 256 (length xs) (length ys)) (omega arith)

pub be-zeros : (n : ℕ) (ys : List ℕ) → be (replicate n 0 ++ ys) ≡ be ys
unfolding be
be-zeros zero ys = refl
be-zeros (suc n) ys = omega (arith, be-zeros n ys)

pub be-lt : (xs : List ℕ) → All (λ x. x < 256) xs → be xs < 256 ^ length xs
unfolding be
be-lt [] h = omega arith
be-lt (x ∷ xs) h = rw (pow-suc 256 (length xs)) (grind (arith, be-lt xs h.1))
